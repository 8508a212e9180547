-- ===== src/Tests/ForwarderTests.antt =====
-- Examples for the accept loop of a forwarding rule (tcp_client.go).
use tunnel.Prelude.{true, codes}
use tunnel.Pool.State.{Pool}
use tunnel.TcpClient.Forwarder.{Client, gives, silent}

-- A connection that says nothing, then one that does.
abbrev waiting : Client
waiting = record {
  conn = 3;
  id = codes "q";
  first = silent;
  read_ms = 5000;
  clock = λ i. i;
  others = λ p. p;
  timer = true;
  wait_ms = 5000;
}

abbrev talking : Client
talking = record waiting {
  conn = 4;
  id = codes "r";
  first = gives (codes "hi");
  read_ms = 2;
  wait_ms = 40;
}

-- ===== src/Server/Listen.antt =====
-- `runWebSocketServer` (websocket_server.go) as a whole: what it listens on, and for whom.
use tunnel.Prelude.{Bytes, Bool, false, List, Option, none, some}
use tunnel.Http.Request.{Url}
use tunnel.Server.Access.{NetText, Listening, self_signed, allowed_nets, listen_path, listening}

-- The program stops with an error, or it serves the requests for a path on an address, from the
-- networks.
pub data Start (Cidr : Type 0) : Type 0 where
  refused : Start Cidr
  serves : List Cidr → Bytes → Bytes → Listening → Start Cidr

module _ {Cidr : Type 0} (net : NetText Cidr) where
  -- A certificate of its own may fail to be made.
  abbrev pub with_cert : Bool → List Cidr → Bytes → Bytes → Listening → Start Cidr
  with_cert false nets host path self_signed = refused
  with_cert made nets host path l = serves nets host path l

  abbrev pub with_nets : Bool → Bytes → Bytes → Url → Option (List Cidr) → Start Cidr
  with_nets made cert_file key_file u none = refused
  with_nets made cert_file key_file u (some nets) =
      with_cert made nets u.host (listen_path u.path) (listening u.scheme cert_file key_file)

  abbrev pub with_url : Bool → Bytes → Bytes → Bytes → Option Url → Start Cidr
  with_url made cidrs cert_file key_file none = refused
  with_url made cidrs cert_file key_file (some u) =
      with_nets made cert_file key_file u (allowed_nets net cidrs)

  -- `url.Parse`, and whether `generateSelfSignedCert` succeeds, are parameters, as is package net.
  unfoldable pub run_web_socket_server :
      (Bytes → Option Url) → Bool → Bytes → Bytes → Bytes → Bytes → Start Cidr
  run_web_socket_server parse_url made cidrs cert_file key_file addr =
      with_url made cidrs cert_file key_file (parse_url addr)

-- ===== src/Tests/PoolTests.antt =====
-- Examples for the pool (pool.go).
use tunnel.Prelude.{Bytes, true, false, [], ◌∷◌, ◌≡◌, refl, none, some, arith, codes, bytes_eq}
use tunnel.Prelude.Map.{lookup, bytes_key, nat_eq}
use tunnel.Wire.{tcp_message}
use tunnel.Pool.State.{Pool, Info, write_ws, new_ech_pool, set_channel}
use tunnel.Pool.Claim.{register, record_claim, bind_channel, claim_acked}
use tunnel.Pool.Steps.{Step, redials, registers, binds}
use tunnel.Pool.Invariant.{Inv, new_ech_pool-Inv, Step-Inv}
use tunnel.Pool.Race.{Once, Run, stop, more, new_ech_pool-Once}
use tunnel.Pool.Asking.{late_claim_panics}

abbrev pub ssh : Info
ssh = record { target_addr = codes "10.0.0.2:22"; first_frame_data = codes "hi" }

abbrev id_a : Bytes
id_a = codes "a"

abbrev fresh_pool : Pool
unfolding new_ech_pool
fresh_pool = new_ech_pool (codes "wss://h/") 2

-- Both channels are connected.
abbrev pub ready : Pool
ready = record {
  ws_server_addr = codes "wss://h/";
  connection_num = 2;
  ws_conns = some 70 ∷ some 71 ∷ [];
  tcp_map = [];
  udp_map = [];
  channel_map = [];
  conn_info = [];
  claim_times = [];
  connected = [];
  bound_by_channel = [];
  pending_by_channel = [];
}

-- The connection `a` asks for a channel.
abbrev waiting : Pool
waiting = record ready {
  tcp_map = (id_a, 5) ∷ [];
  conn_info = (id_a, ssh) ∷ [];
  claim_times = (id_a, []) ∷ [];
  connected = (id_a, false) ∷ [];
}

-- The connection `a` has channel 1.
abbrev bound : Pool
bound = record ready {
  tcp_map = (id_a, 5) ∷ [];
  channel_map = (id_a, 1) ∷ [];
  claim_times = (id_a, []) ∷ [];
  connected = (id_a, false) ∷ [];
  bound_by_channel = (1, id_a) ∷ [];
}

register_waiting : register id_a ssh 5 ready ≡ waiting
unfolding register bytes_eq
register_waiting = refl

claim_acked-bound :
    claim_acked 1 71 id_a true waiting
    ≡ (bound, write_ws 71 (tcp_message id_a ssh.target_addr ssh.first_frame_data) ∷ [])
unfolding claim_acked bytes_eq
claim_acked-bound = refl

-- A new pool dials channel 1, registers `a`, and channel 1 acknowledges.
abbrev dialled : Pool
dialled = record ready { ws_conns = none ∷ some 71 ∷ [] }

abbrev dialled_waiting : Pool
dialled_waiting = record waiting { ws_conns = none ∷ some 71 ∷ [] }

abbrev dialled_bound : Pool
dialled_bound = record bound { ws_conns = none ∷ some 71 ∷ [] }

dial_step : Step (new_ech_pool (codes "wss://h/") 2) dialled
unfolding new_ech_pool set_channel
dial_step = redials 1 71

register_step : Step dialled dialled_waiting
unfolding register bytes_eq
register_step = registers id_a ssh 5 refl

bind_step : Step dialled_waiting dialled_bound
unfolding bind_channel bytes_eq
bind_step = binds id_a 1 ssh (omega arith) refl

race : Run (new_ech_pool (codes "wss://h/") 2) ((id_a, 1) ∷ []) dialled_bound
unfolding dial_step register_step bind_step
race = more dial_step (more register_step (more bind_step stop refl) refl) refl

new_ech_pool-Once_example : Once ((id_a, 1) ∷ [])
new_ech_pool-Once_example = new_ech_pool-Once (codes "wss://h/") 2 race

Step-Inv_example : Inv dialled
Step-Inv_example = Step-Inv (new_ech_pool-Inv (codes "wss://h/") 2) dial_step

redial_step : Step bound (set_channel 1 72 bound)
redial_step = redials 1 72

late_claim_panics_example :
    (q : Pool) × (r : Pool) × (record_claim id_a 0 9 (register id_a ssh 5 ready) ≡ some q)
    × (bind_channel 0 id_a q ≡ some (ssh, r))
    × (lookup id_a r.channel_map ≡ some 0)
    × (record_claim id_a 1 10 r ≡ none)
unfolding lookup
late_claim_panics_example = late_claim_panics id_a ssh 5 0 1 9 10 ready refl refl

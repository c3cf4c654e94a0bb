-- ===== src/Examples/Tunnels.antt =====
-- The theorems on the SSH tunnels, run.
use squall.Common.{pos, ◌≡◌, refl, true, false, inr, some, String, List, [], ◌∷◌, arith}
use squall.Proxy.Cache.{ReplicaEndpoint, ModelSnapshot, new_cache, get}
use squall.Proxy.Tunnels.{Tunnel, SshBackend, look, replace, resolve_signer}
use squall.Proxy.Tunnels.Streams.{Op, looked, step}
use squall.Proxy.Tunnels.Races.{
  Conn, Access, referenced, dropped, decided, stored, loaded, closes, access, after, Streams,
  IsSteady, fresh, after-IsSteady, retired_closes,
}
use squall.Proxy.Tunnels.Leaks.{IsTidy, step-IsTidy}

abbrev endpoint_at : String → ReplicaEndpoint
endpoint_at host = record { host = host; ssh_port = pos 22; user = "root"; service_port = pos 8000 }

abbrev old_tunnel : Tunnel
old_tunnel = record { endpoint = endpoint_at "10.0.0.1"; refs = 2; retired = false; closed = false }

-- Two responses stream over the tunnel to the first replica.
abbrev streaming : SshBackend
streaming = record {
  signer = true;
  dial_backoff = pos 0;
  heap = λ i. old_tunnel;
  next_tunnel = 1;
  conns = ("qwen", 0) ∷ [];
  failed = [];
  host_keys = [];
}

abbrev moved : ModelSnapshot
moved = record {
  phase = "Ready";
  namespace = "main";
  replica = some (endpoint_at "10.0.0.2");
  hold_timeout = pos 0;
  idle_timeout = pos 0;
  created = 0;
  features = [];
  owner = "";
  service_url = "";
  served_model = "";
  forward_model = "";
  schedulable = true;
}

-- A request that finds that the replica has been replaced.
abbrev after_move : Op
after_move = looked (record new_cache { by_name = ("qwen", moved) ∷ [] }) false 5 "qwen"

streaming-IsTidy : IsTidy streaming
streaming-IsTidy i l = let p : 0 ≡ i = omega (arith, l) in inr ("qwen", cc p)

step-IsTidy_example : IsTidy (step after_move streaming)
step-IsTidy_example = step-IsTidy after_move streaming tt streaming-IsTidy

-- The tunnel has been retired, and nobody is given it.
after_move_retired : ((step after_move streaming).heap 0).retired ≡ true
unfolding step look replace resolve_signer get
after_move_retired = refl

after_move_conns : (step after_move streaming).conns ≡ []
unfolding step look replace resolve_signer get
after_move_conns = refl

-- The tunnel is retired while one response streams over it, and another begins before that one ends.
abbrev busy_conn : Conn
busy_conn = record fresh { refs = 1 }

abbrev overlapping : List Access
overlapping = stored ∷ referenced ∷ dropped ∷ loaded ∷ []

after-IsSteady_example : IsSteady (after overlapping busy_conn)
unfolding access Streams
after-IsSteady_example =
    after-IsSteady overlapping busy_conn (refl, (refl, (refl, (refl, tt)))) (refl, refl, refl)
      (omega arith, (omega arith, (omega arith, (omega arith, omega arith))))

-- A tunnel that is retired while a response streams over it.
abbrev draining_out : List Access
draining_out = referenced ∷ stored ∷ loaded ∷ dropped ∷ decided ∷ closes ∷ []

retired_closes_example : (after draining_out fresh).closed ≡ true
unfolding access after
retired_closes_example =
    retired_closes draining_out (refl, (refl, (refl, (refl, (refl, (refl, tt)))))) refl refl refl
      refl refl

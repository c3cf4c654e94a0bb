-- ===== src/Proxy/Tunnels.antt =====
-- The proxy's SSH tunnels to the replicas: internal/proxy/sshbackend.go. The pointers to tunnels are
-- numbers, the heap is a function on them, and `next_tunnel` is the first that is not given out. What
-- SSH does is an argument. `tunnelFor` takes its lock twice: `look` and `settle` are what it does under
-- it, and other requests may come between them. The atomic accesses of `retire`, and those of
-- `release`, are one step here, and separate steps in Proxy/Tunnels/Races; logging and the transport's
-- settings are left out.
pub mod Streams
pub mod Leaks
pub mod Races
use squall.Common.{
  ℕ, suc, ℤ, pos, ◌+◌, ◌-◌, Bool, true, false, ◌&&◌, ◌||◌, Option, none, some, String, List, [],
  ◌∷◌, ◌==◌, ltb, le_dur, if◌then◌else◌, str_eq, lookup, insert,
}
use squall.Proxy.Cache.{ReplicaEndpoint, ModelSnapshot, ModelCache, get}

pub record Tunnel : Type 0 where
  pub endpoint : ReplicaEndpoint
  pub refs : ℕ
  pub retired : Bool
  pub closed : Bool

pub record FailedDial : Type 0 where
  pub endpoint : ReplicaEndpoint
  pub until : ℕ

-- `signer` says whether the key is loaded; a backoff is in nanoseconds.
pub record SshBackend : Type 0 where
  pub signer : Bool
  pub dial_backoff : ℤ
  pub heap : ℕ → Tunnel
  pub next_tunnel : ℕ
  pub conns : List (String × ℕ)
  pub failed : List (String × FailedDial)
  pub host_keys : List (String × String)

abbrev pub same_int : ℤ → ℤ → Bool
same_int a b = le_dur a b && le_dur b a

abbrev pub same_endpoint : ReplicaEndpoint → ReplicaEndpoint → Bool
same_endpoint e f =
    str_eq e.host f.host
    && same_int e.ssh_port f.ssh_port
    && str_eq e.user f.user
    && same_int e.service_port f.service_port

abbrev pub at_tunnel : ℕ → (Tunnel → Tunnel) → SshBackend → SshBackend
at_tunnel i f b = record b { heap = λ j. if j == i then f (b.heap j) else b.heap j }

-- Closing the SSH connection.
abbrev pub closed_of : Tunnel → Tunnel
closed_of t = record t { closed = true }

-- release.
abbrev pub released_of : Tunnel → Tunnel
released_of t = record t { refs = t.refs - 1; closed = t.closed || (t.refs == 1 && t.retired) }

-- retire.
abbrev pub retired_of : Tunnel → Tunnel
retired_of t = record t { retired = true; closed = t.closed || t.refs == 0 }

-- The reference that RoundTrip takes.
abbrev pub referenced_of : Tunnel → Tunnel
referenced_of t = record t { refs = t.refs + 1 }

abbrev pub without_key {ℓ} : {A : Type ℓ} → String → List (String × A) → List (String × A)
without_key k [] = []
without_key k ((n, a) ∷ m) =
    let rest = without_key k m in if str_eq n k then rest else (n, a) ∷ rest

-- resolveSigner; `load` says whether LoadSigner gives a key.
unfoldable pub resolve_signer : Bool → SshBackend → SshBackend
resolve_signer load b = record b { signer = b.signer || load }

-- What the first section under the lock makes of a request.
pub data Looked : Type 0 where
  no_tunnel : Looked
  reuse : ℕ → Looked
  dialling : ReplicaEndpoint → Looked

abbrev pub is_backing_off : Option FailedDial → ReplicaEndpoint → ℕ → Bool
is_backing_off none want now = false
is_backing_off (some f) want now = same_endpoint f.endpoint want && ltb now f.until

-- Drops a tunnel to a replica that is no longer the Model's.
unfoldable pub replace : String → ℕ → SshBackend → SshBackend
replace model i b = record (at_tunnel i retired_of b) {
  conns = without_key model b.conns;
  failed = without_key model b.failed;
}

abbrev pub look_conn : String → ReplicaEndpoint → SshBackend → Option ℕ → SshBackend × Looked
unfolding replace
look_conn model want b none = (b, dialling want)
look_conn model want b (some i) =
    if same_endpoint (b.heap i).endpoint want
    then (b, reuse i)
    else (replace model i b, dialling want)

abbrev pub look_at : ℕ → String → SshBackend → Option ReplicaEndpoint → SshBackend × Looked
look_at now model b none = (b, no_tunnel)
look_at now model b (some want) =
    if is_backing_off (lookup model b.failed) want now
    then (b, no_tunnel)
    else look_conn model want b (lookup model b.conns)

abbrev pub replica_of : Option ModelSnapshot → Option ReplicaEndpoint
replica_of none = none
replica_of (some snap) = snap.replica

-- tunnelFor up to the dial.
unfoldable pub look : ModelCache → Bool → ℕ → String → SshBackend → SshBackend × Looked
unfolding get resolve_signer
look cache load now model b =
    let b1 = resolve_signer load b in
    if b1.signer then look_at now model b1 (replica_of (get cache model)) else (b1, no_tunnel)

-- What the other side of a dial does: it cannot be reached, or it offers a host key, and then the
-- handshake succeeds or fails.
pub data Handshake : Type 0 where
  unreachable : Handshake
  offers : String → Bool → Handshake

-- The callback of pinHostKey: it trusts the first key of an address and no other afterwards.
abbrev pub pinned : String → String → SshBackend → Option String → SshBackend × Bool
pinned addr fingerprint b none =
    (record b { host_keys = insert addr fingerprint b.host_keys }, true)
pinned addr fingerprint b (some seen) = (b, str_eq seen fingerprint)

unfoldable pub pin_host_key : String → String → SshBackend → SshBackend × Bool
pin_host_key addr fingerprint b = pinned addr fingerprint b (lookup addr b.host_keys)

abbrev pub fresh_tunnel : ReplicaEndpoint → Tunnel
fresh_tunnel e = record { endpoint = e; refs = 0; retired = false; closed = false }

-- A new connection.
abbrev pub made_of : ReplicaEndpoint → SshBackend → SshBackend × Option ℕ
made_of want b = (
  record (at_tunnel b.next_tunnel (λ t. fresh_tunnel want) b) { next_tunnel = suc b.next_tunnel },
  some b.next_tunnel,
)

abbrev pub made_if : ReplicaEndpoint → Bool → SshBackend × Bool → SshBackend × Option ℕ
made_if want ok (b, trusted) = if trusted && ok then made_of want b else (b, none)

-- dial; `addr` is the host with its SSH port.
unfoldable pub dial : String → ReplicaEndpoint → Handshake → SshBackend → SshBackend × Option ℕ
unfolding pin_host_key
dial addr want unreachable b = (b, none)
dial addr want (offers fingerprint ok) b = made_if want ok (pin_host_key addr fingerprint b)

abbrev pub backoff_or_default : ℤ → ℕ
backoff_or_default (pos (suc n)) = suc n
backoff_or_default _ = 30000000000

-- The tunnel of another request that was faster, if it leads to the same endpoint.
abbrev pub rival : ReplicaEndpoint → SshBackend → Option ℕ → Option ℕ
rival want b none = none
rival want b (some i) = if same_endpoint (b.heap i).endpoint want then some i else none

abbrev pub install : String → ℕ → SshBackend → Option ℕ → SshBackend × Option ℕ
install model t b (some existing) = (at_tunnel t closed_of b, some existing)
install model t b none =
    (record b { conns = insert model t b.conns; failed = without_key model b.failed }, some t)

-- tunnelFor from the dial's result on.
unfoldable pub settle : ℕ → String → ReplicaEndpoint → Option ℕ → SshBackend → SshBackend × Option ℕ
settle now model want none b = (
  record b {
    failed =
        insert model (record { endpoint = want; until = now + backoff_or_default b.dial_backoff })
          b.failed;
  },
  none,
)
settle now model want (some t) b = install model t b (rival want b (lookup model b.conns))

abbrev pub is_in_place : ℕ → Option ℕ → Bool
is_in_place i none = false
is_in_place i (some j) = j == i

-- watch, once the connection is dead.
unfoldable pub evict : String → ℕ → SshBackend → SshBackend
evict model i b = record b {
  conns = if is_in_place i (lookup model b.conns) then without_key model b.conns else b.conns;
}

abbrev pub retire_all : List (String × ℕ) → SshBackend → SshBackend
retire_all [] b = b
retire_all ((n, i) ∷ m) b = let rest = retire_all m b in at_tunnel i retired_of rest

-- Close.
unfoldable pub shut : SshBackend → SshBackend
shut b = record (retire_all b.conns b) { conns = [] }

-- tunnelFor without a request in between, with the time at which it looks and that at which the dial has
-- ended. `join` is net.JoinHostPort, and `hs` what the replica does if it is dialled.
abbrev pub dial_if_needed :
    (String → ℤ → String) → ℕ → String → Handshake → SshBackend × Looked → SshBackend × Option ℕ
dial_if_needed join later model hs (b, no_tunnel) = (b, none)
dial_if_needed join later model hs (b, reuse i) = (b, some i)
dial_if_needed join later model hs (b, dialling want) =
    let (b1, made) = dial (join want.host want.ssh_port) want hs b in
    settle later model want made b1

unfoldable pub tunnel_for :
    (String → ℤ → String)
    → ModelCache
    → Bool
    → ℕ
    → ℕ
    → String
    → Handshake
    → SshBackend
    → SshBackend × Option ℕ
unfolding look dial settle
tunnel_for join cache load now later model hs b =
    dial_if_needed join later model hs (look cache load now model b)

-- Route: the inner backend's URL with the default client, or the placeholder with a tunnel's client.
pub data Target : Type 0 where
  inner_url : Target
  through : ℕ → Target

abbrev pub target_of : Option ℕ → Target
target_of none = inner_url
target_of (some i) = through i

unfoldable pub route :
    (String → ℤ → String)
    → ModelCache
    → Bool
    → ℕ
    → ℕ
    → String
    → Handshake
    → SshBackend
    → SshBackend × Target
unfolding tunnel_for
route join cache load now later model hs b =
    let (b1, made) = tunnel_for join cache load now later model hs b in (b1, target_of made)

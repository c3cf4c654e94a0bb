-- ===== src/Proxy/Tunnels/Races.antt =====
-- The connection of one tunnel under every interleaving of the atomic accesses that RoundTrip, release and
-- retire of internal/proxy/sshbackend.go make. `deciding` is the number of releases that took the last
-- reference and have not read `retired`, `loading` that of retires that have not read `refs`, and `closing`
-- that of either that will close the connection next.
use squall.Common.{
  ℕ, ◌+◌, ◌-◌, ◌<◌, ◌≡◌, ◌⊎◌, inl, inr, refl, Bool, true, false, List, [], ◌∷◌, ◌==◌, ◌||◌, ltb,
  arith, if◌then◌else◌, Bool-cases,
}
use squall.Proxy.Cache.{ReplicaEndpoint}
use squall.Proxy.Tunnels.{Tunnel, retired_of, released_of}

pub record Conn : Type 0 where
  pub refs : ℕ
  pub retired : Bool
  pub closed : Bool
  pub deciding : ℕ
  pub loading : ℕ
  pub closing : ℕ

-- RoundTrip's refs.Add(1); release's refs.Add(-1) and retired.Load(); retire's retired.Store(true) and
-- refs.Load(); and the Close of either.
pub data Access : Type 0 where
  referenced dropped decided stored loaded closes : Access

-- Whether somebody is about to make this access.
abbrev pub is_due : Access → Conn → Bool
is_due referenced c = true
is_due dropped c = ltb 0 c.refs
is_due decided c = ltb 0 c.deciding
is_due stored c = true
is_due loaded c = ltb 0 c.loading
is_due closes c = ltb 0 c.closing

unfoldable pub access : Access → Conn → Conn
access referenced c = record c { refs = c.refs + 1 }
access dropped c = record c {
  refs = c.refs - 1;
  deciding = if c.refs == 1 then c.deciding + 1 else c.deciding;
}
access decided c = record c {
  deciding = c.deciding - 1;
  closing = if c.retired then c.closing + 1 else c.closing;
}
access stored c = record c { retired = true; loading = c.loading + 1 }
access loaded c = record c {
  loading = c.loading - 1;
  closing = if c.refs == 0 then c.closing + 1 else c.closing;
}
access closes c = record c { closing = c.closing - 1; closed = true }

-- A history of accesses, oldest first, each of which somebody is about to make.
abbrev pub Runs : List Access → Conn → Type 0
unfolding access
Runs [] c = Unit
Runs (a ∷ xs) c = (is_due a c ≡ true) × Runs xs (access a c)

unfoldable pub after : List Access → Conn → Conn
unfolding access
after [] c = c
after (a ∷ xs) c = after xs (access a c)

-- A response streams in every state of the history.
unfoldable pub Streams : List Access → Conn → Type 0
unfolding access
Streams [] c = 0 < c.refs
Streams (a ∷ xs) c = (0 < c.refs) × Streams xs (access a c)

-- The connection is open, and nobody has found it without a stream and is still to act on that.
abbrev pub IsSteady : Conn → Type 0
IsSteady c = (c.closed ≡ false) × (c.deciding ≡ 0) × (c.closing ≡ 0)

Streams-now : (xs : List Access) (c : Conn) → Streams xs c → 0 < c.refs
unfolding Streams
Streams-now [] c h = h
Streams-now (a ∷ xs) c h = h.0

access-IsSteady :
    (a : Access) (c : Conn)
    → is_due a c ≡ true
    → 0 < c.refs
    → 0 < (access a c).refs
    → IsSteady c
    → IsSteady (access a c)
unfolding access
access-IsSteady referenced c d r q s = s
access-IsSteady dropped c d r q s = ground (arith, q, s)
access-IsSteady decided c d r q s = ground (arith, d, s)
access-IsSteady stored c d r q s = s
access-IsSteady loaded c d r q s = ground (arith, r, s)
access-IsSteady closes c d r q s = ground (arith, d, s)

-- However the accesses of requests, of releases and of retires interleave, an open connection that none
-- of them has yet found idle is not closed by them for as long as some response always streams over it:
-- only a stream that begins after a moment without any can be cut off by a retire.
pub after-IsSteady :
    (xs : List Access) (c : Conn) → Runs xs c → IsSteady c → Streams xs c → IsSteady (after xs c)
unfolding after Streams
after-IsSteady [] c h s r = s
after-IsSteady (a ∷ xs) c h s r =
    after-IsSteady xs (access a c) h.1
      (access-IsSteady a c h.0 r.0 (Streams-now xs (access a c) r.1) s) r.1

or_true : (b : Bool) → (b || true) ≡ true
or_true false = refl
or_true true = refl

or_false : (b : Bool) → (b || false) ≡ b
or_false false = refl
or_false true = refl

-- The tunnel that a connection is that of.
abbrev tunnel_of : ReplicaEndpoint → Conn → Tunnel
tunnel_of e c = record { endpoint = e; refs = c.refs; retired = c.retired; closed = c.closed }

abbrev pub retiring : Conn → List Access
retiring c = stored ∷ loaded ∷ (if c.refs == 0 then closes ∷ [] else [])

abbrev pub releasing : Conn → List Access
releasing c =
    dropped ∷ (if c.refs == 1 then decided ∷ (if c.retired then closes ∷ [] else []) else [])

-- A retire with nothing in between is the single step of the tunnels' model.
pub retire_alone :
    (e : ReplicaEndpoint) (c : Conn)
    → tunnel_of e (after (retiring c) c) ≡ retired_of (tunnel_of e c)
unfolding after access
retire_alone e c = elim (Bool-cases (c.refs == 0)) [
  | inl z ↦ rw z (rw (or_true c.closed) refl)
  | inr z ↦ rw z (rw (or_false c.closed) refl)
]

-- A release with nothing in between is the single step of the tunnels' model.
pub release_alone :
    (e : ReplicaEndpoint) (c : Conn)
    → tunnel_of e (after (releasing c) c) ≡ released_of (tunnel_of e c)
unfolding after access
release_alone e c = elim (Bool-cases (c.refs == 1)) [
  | inr z ↦ rw z (rw (or_false c.closed) refl)
  | inl z ↦ elim (Bool-cases c.retired) [
    | inl t ↦ rw (z, t) (rw (or_true c.closed) refl)
    | inr t ↦ rw (z, t) (rw (or_false c.closed) refl)
  ]
]

-- A retired connection without streams is closed, or somebody is about to close it or to find that out.
abbrev IsWatched : Conn → Type 0
IsWatched c =
    c.retired ≡ true
    → c.refs ≡ 0
    → (c.closed ≡ true) ⊎ (0 < c.deciding) ⊎ (0 < c.loading) ⊎ (0 < c.closing)

access-IsWatched :
    (a : Access) (c : Conn) → is_due a c ≡ true → IsWatched c → IsWatched (access a c)
unfolding access
access-IsWatched referenced c d w t r = ground (arith, r)
access-IsWatched dropped c d w t r = ground (arith, d, r)
access-IsWatched decided c d w t r = ground (arith, d, t)
access-IsWatched stored c d w t r = ground arith
access-IsWatched loaded c d w t r = ground (arith, r)
access-IsWatched closes c d w t r = ground arith

after-IsWatched : (xs : List Access) (c : Conn) → Runs xs c → IsWatched c → IsWatched (after xs c)
unfolding after
after-IsWatched [] c h w = w
after-IsWatched (a ∷ xs) c h w = after-IsWatched xs (access a c) h.1 (access-IsWatched a c h.0 w)

-- A new connection.
abbrev pub fresh : Conn
fresh = record { refs = 0; retired = false; closed = false; deciding = 0; loading = 0; closing = 0 }

-- However they interleave, once a tunnel is retired, its last response has ended and no release or
-- retire is left in the middle, its connection has been closed.
pub retired_closes :
    (xs : List Access)
    → Runs xs fresh
    → (after xs fresh).retired ≡ true
    → (after xs fresh).refs ≡ 0
    → (after xs fresh).deciding ≡ 0
    → (after xs fresh).loading ≡ 0
    → (after xs fresh).closing ≡ 0
    → (after xs fresh).closed ≡ true
retired_closes xs h t r d l k =
    let w = after-IsWatched xs fresh h (λ e. ground (arith, e)) t r in ground (arith, w, d, l, k)

-- ===== src/Proxy/Tunnels/Streams.antt =====
-- What happens to the connections of the tunnels while requests stream over them.
use squall.Common.{
  ℕ, ◌<◌, ◌≡◌, ◌≢◌, inl, inr, refl, sym, Bool, true, false, ◌&&◌, Option, none, some, String, List,
  [], ◌∷◌, arith, if◌then◌else◌, str_eq, lookup, insert, Bool-cases,
}
use squall.Proxy.Cache.{ReplicaEndpoint, ModelCache, get}
use squall.Proxy.Tunnels.{
  Tunnel, SshBackend, pinned, made_if, made_of, no_tunnel, Handshake, at_tunnel, closed_of,
  released_of, referenced_of, is_backing_off, replica_of, look_conn, look_at, rival, install,
  retire_all, look, dial, settle, resolve_signer, replace, pin_host_key, evict, shut, unreachable,
  offers,
}

-- The steps of requests, of their transport, of the connections and of the shutdown. A dial is one step
-- with `settle`, since what it makes is seen by nobody before.
pub data Op : Type 0 where
  looked : ModelCache → Bool → ℕ → String → Op
  tried : String → ℕ → String → ReplicaEndpoint → Handshake → Op
  sent ended died : ℕ → Op
  evicted : String → ℕ → Op
  shut_down : Op

abbrev pub settled : ℕ → String → ReplicaEndpoint → SshBackend × Option ℕ → SshBackend
settled now model want (b, made) = (settle now model want made b).0

unfoldable pub step : Op → SshBackend → SshBackend
unfolding look settle dial evict shut
step (looked cache load now model) b = (look cache load now model b).0
step (tried addr now model want hs) b = settled now model want (dial addr want hs b)
step (sent i) b = at_tunnel i referenced_of b
step (ended i) b = at_tunnel i released_of b
step (died i) b = at_tunnel i closed_of b
step (evicted model i) b = evict model i b
step shut_down b = shut b

-- The step is not the death of this connection itself.
abbrev pub Spares : ℕ → Op → Type 0
Spares i (died j) = j ≢ i
Spares i _ = Unit

-- The tunnel is another one that keeps its streams, or an open one stays so while it has any.
abbrev Survives : Tunnel → Tunnel → Type 0
Survives t u = t.closed ≡ false → 0 < u.refs → u.closed ≡ false

retire_all-Survives :
    (m : List (String × ℕ)) (b : SshBackend) (i : ℕ)
    → (((retire_all m b).heap i).refs ≡ (b.heap i).refs)
      × Survives (b.heap i) ((retire_all m b).heap i)
retire_all-Survives [] b i = (refl, λ c r. c)
retire_all-Survives ((n, j) ∷ m) b i = ground (arith, retire_all-Survives m b i)

look_conn-Survives :
    (model : String) (want : ReplicaEndpoint) (b : SshBackend) (o : Option ℕ) (i : ℕ)
    → Survives (b.heap i) ((look_conn model want b o).0.heap i)
unfolding look_conn replace
look_conn-Survives model want b none i c r = c
look_conn-Survives model want b (some j) i c r = ground (arith, c, r)

look_at-Survives :
    (now : ℕ) (model : String) (b : SshBackend) (o : Option ReplicaEndpoint) (i : ℕ)
    → Survives (b.heap i) ((look_at now model b o).0.heap i)
look_at-Survives now model b none i = λ c r. c
look_at-Survives now model b (some want) i =
    elim (Bool-cases (is_backing_off (lookup model b.failed) want now)) [
      | inl e ↦ rw e (λ c r. c)
      | inr e ↦ rw e (look_conn-Survives model want b (lookup model b.conns) i)
    ]

keyed-Survives :
    (now : ℕ) (model : String) (b : SshBackend) (o : Option ReplicaEndpoint) (ok : Bool) (i : ℕ)
    → Survives (b.heap i) ((if ok then look_at now model b o else (b, no_tunnel)).0.heap i)
keyed-Survives now model b o false i = λ c r. c
keyed-Survives now model b o true i = look_at-Survives now model b o i

look-Survives :
    (cache : ModelCache) (load : Bool) (now : ℕ) (model : String) (b : SshBackend) (i : ℕ)
    → Survives (b.heap i) ((look cache load now model b).0.heap i)
unfolding look resolve_signer
look-Survives cache load now model b i =
    let b1 = resolve_signer load b in
    keyed-Survives now model b1 (replica_of (get cache model)) b1.signer i

install-Survives :
    (model : String) (t : ℕ) (b : SshBackend) (o : Option ℕ) (i : ℕ)
    → i ≢ t
    → Survives (b.heap i) ((install model t b o).0.heap i)
install-Survives model t b none i h c r = c
install-Survives model t b (some j) i h c r = ground (arith, c, r, h)

made-Survives :
    (now : ℕ) (model : String) (want : ReplicaEndpoint) (ok : Bool) (b : SshBackend) (i : ℕ)
    → i < b.next_tunnel
    → Survives
        (b.heap i)
        ((settled now model want (if ok then made_of want b else (b, none))).heap i)
unfolding settle
made-Survives now model want false b i l = λ c r. c
made-Survives now model want true b i l =
    let b1 = (made_of want b).0 in
    let same : b1.heap i ≡ b.heap i = ground (arith, l) in
    rw (sym same) (
      install-Survives model b.next_tunnel b1 (rival want b1 (lookup model b1.conns)) i
        (ground (arith, l)))

pinned-Survives :
    (addr f : String) (o : Option String) (now : ℕ) (model : String) (want : ReplicaEndpoint)
    (ok : Bool) (b : SshBackend) (i : ℕ)
    → i < b.next_tunnel
    → Survives (b.heap i) ((settled now model want (made_if want ok (pinned addr f b o))).heap i)
pinned-Survives addr f none now model want ok b i l =
    made-Survives now model want ok (record b { host_keys = insert addr f b.host_keys }) i l
pinned-Survives addr f (some k) now model want ok b i l =
    made-Survives now model want (str_eq k f && ok) b i l

tried-Survives :
    (addr : String) (now : ℕ) (model : String) (want : ReplicaEndpoint) (hs : Handshake)
    (b : SshBackend) (i : ℕ)
    → i < b.next_tunnel
    → Survives (b.heap i) ((settled now model want (dial addr want hs b)).heap i)
unfolding settle dial pin_host_key
tried-Survives addr now model want unreachable b i l = λ c r. c
tried-Survives addr now model want (offers f ok) b i l =
    pinned-Survives addr f (lookup addr b.host_keys) now model want ok b i l

-- Where retire and release are single steps, a connection that is open before a step, and on which a
-- response is streaming after it, is open after it too, unless the step is the connection's own death.
pub streams_survive :
    (op : Op) (b : SshBackend) (i : ℕ)
    → i < b.next_tunnel
    → Spares i op
    → (b.heap i).closed ≡ false
    → 0 < ((step op b).heap i).refs
    → ((step op b).heap i).closed ≡ false
unfolding step evict shut
streams_survive (looked cache load now model) b i l s c r =
    look-Survives cache load now model b i c r
streams_survive (tried addr now model want hs) b i l s c r =
    tried-Survives addr now model want hs b i l c r
streams_survive (sent j) b i l s c r = ground (arith, c, r)
streams_survive (ended j) b i l s c r = ground (arith, c, r)
streams_survive (died j) b i l s c r = ground (arith, c, r, s)
streams_survive (evicted model j) b i l s c r = c
streams_survive shut_down b i l s c r = (retire_all-Survives b.conns b i).1 c r

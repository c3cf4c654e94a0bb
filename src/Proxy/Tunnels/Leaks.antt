-- ===== src/Proxy/Tunnels/Leaks.antt =====
-- That no connection is left open that nobody uses.
use squall.Common.{
  ℕ, ◌<◌, ◌≡◌, ◌≢◌, ◌⊎◌, inl, inr, refl, ap, ◌∙◌, Bool, true, false, ◌&&◌, Option, none, some,
  String, List, [], ◌∷◌, arith, ◌==◌, if◌then◌else◌, str_eq, lookup, insert, Bool-cases,
  Option-cases, eq_iff, eq_refl, subst, lookup-insert,
}
use squall.Proxy.Cache.{ReplicaEndpoint, ModelCache, get}
use squall.Proxy.Tunnels.{
  Tunnel, SshBackend, no_tunnel, Handshake, made_of, pinned, made_if, at_tunnel, released_of,
  retired_of, same_endpoint, is_backing_off, replica_of, without_key, look_conn, look_at, rival,
  install, retire_all, look, dial, settle, resolve_signer, replace, pin_host_key, evict, shut,
  unreachable, offers,
}
use squall.Proxy.Tunnels.Streams.{
  Op, looked, tried, sent, ended, died, evicted, shut_down, settled, step,
}

-- A retired tunnel is closed or has a response that streams over it.
abbrev pub IsLetGo : Tunnel → Type 0
IsLetGo t = (t.closed ≡ true) ⊎ ((t.retired ≡ true) × (0 < t.refs))

-- A tunnel is let go of, or a Model's requests are given it.
abbrev pub IsKept : SshBackend → ℕ → Type 0
IsKept b i = IsLetGo (b.heap i) ⊎ ((n : String) × (lookup n b.conns ≡ some i))

abbrev pub IsTidy : SshBackend → Type 0
IsTidy b = (i : ℕ) → i < b.next_tunnel → IsKept b i

-- A dial ends while no other request has put a tunnel in the Model's place, and a tunnel is evicted
-- after its connection has died.
abbrev pub IsCalm : SshBackend → Op → Type 0
IsCalm b (tried addr now model want hs) = lookup model b.conns ≡ none
IsCalm b (evicted model i) = (b.heap i).closed ≡ true
IsCalm b _ = Unit

lookup-without_key :
    (n k : String) (m : List (String × ℕ)) → n ≢ k → lookup n (without_key k m) ≡ lookup n m
lookup-without_key n k [] h = refl
lookup-without_key n k ((x, a) ∷ m) h =
    ground (arith, lookup-without_key n k m h, eq_iff x k, eq_iff x n, h)

retired_of-IsLetGo : (t : Tunnel) → IsLetGo (retired_of t)
retired_of-IsLetGo t = elim (Bool-cases (t.refs == 0)) [
  | inl e ↦ ground (arith, e)
  | inr e ↦ ground (arith, e)
]

-- An entry that goes leaves the others in place, and its tunnel has been let go of.
without-IsKept :
    (model : String) (i : ℕ) (b : SshBackend) (heap : ℕ → Tunnel) (j : ℕ)
    → lookup model b.conns ≡ some i
    → IsLetGo (heap i)
    → (IsLetGo (b.heap j) → IsLetGo (heap j))
    → IsKept b j
    → IsLetGo (heap j) ⊎ ((n : String) × (lookup n (without_key model b.conns) ≡ some j))
without-IsKept model i b heap j e g mono (inl k) = inl (mono k)
without-IsKept model i b heap j e g mono (inr (n, k)) = elim (Bool-cases (str_eq n model)) [
  | inl q ↦
      let p : n ≡ model = ground (arith, q, eq_iff n model) in
      let s : i ≡ j = cc (e, k, p) in inl (subst (λ x. IsLetGo (heap x)) s g)
  | inr q ↦ inr (
    n,
    lookup-without_key n model b.conns (λ p. ground (arith, q, p, eq_iff n model, eq_refl model))
        ∙ k,
  )
]

-- Retiring a tunnel and dropping its entry.
replace-IsTidy :
    (model : String) (i : ℕ) (b : SshBackend)
    → lookup model b.conns ≡ some i
    → IsTidy b
    → IsTidy (replace model i b)
unfolding replace
replace-IsTidy model i b e tidy j l =
    let heap = (at_tunnel i retired_of b).heap in
    without-IsKept model i b heap j e (ground (arith, retired_of-IsLetGo (b.heap i)))
      (λ g. ground (arith, g, retired_of-IsLetGo (b.heap j))) (tidy j l)

look_conn-IsTidy :
    (model : String) (want : ReplicaEndpoint) (b : SshBackend) (o : Option ℕ)
    → lookup model b.conns ≡ o
    → IsTidy b
    → IsTidy (look_conn model want b o).0
unfolding look_conn
look_conn-IsTidy model want b none e tidy = tidy
look_conn-IsTidy model want b (some i) e tidy =
    elim (Bool-cases (same_endpoint (b.heap i).endpoint want)) [
      | inl q ↦ rw q tidy
      | inr q ↦ rw q (replace-IsTidy model i b e tidy)
    ]

look_at-IsTidy :
    (now : ℕ) (model : String) (b : SshBackend) (o : Option ReplicaEndpoint)
    → IsTidy b
    → IsTidy (look_at now model b o).0
look_at-IsTidy now model b none tidy = tidy
look_at-IsTidy now model b (some want) tidy =
    elim (Bool-cases (is_backing_off (lookup model b.failed) want now)) [
      | inl e ↦ rw e tidy
      | inr e ↦ rw e (look_conn-IsTidy model want b (lookup model b.conns) refl tidy)
    ]

keyed-IsTidy :
    (now : ℕ) (model : String) (b : SshBackend) (o : Option ReplicaEndpoint) (ok : Bool)
    → IsTidy b
    → IsTidy (if ok then look_at now model b o else (b, no_tunnel)).0
keyed-IsTidy now model b o false tidy = tidy
keyed-IsTidy now model b o true tidy = look_at-IsTidy now model b o tidy

look-IsTidy :
    (cache : ModelCache) (load : Bool) (now : ℕ) (model : String) (b : SshBackend)
    → IsTidy b
    → IsTidy (look cache load now model b).0
unfolding look resolve_signer
look-IsTidy cache load now model b tidy =
    let b1 = resolve_signer load b in
    keyed-IsTidy now model b1 (replica_of (get cache model)) b1.signer tidy

install-IsTidy :
    (model : String) (want : ReplicaEndpoint) (b : SshBackend) (o : Option ℕ)
    → o ≡ none
    → lookup model b.conns ≡ none
    → IsTidy b
    → let b1 = (made_of want b).0 in IsTidy (install model b.next_tunnel b1 (rival want b1 o)).0
install-IsTidy model want b (some x) q e tidy i l = ground (arith, q)
install-IsTidy model want b none q e tidy i l = elim (Bool-cases (b.next_tunnel == i)) [
  | inl u ↦
      let p : b.next_tunnel ≡ i = ground (arith, u) in
      inr
        (model, lookup-insert model model b.next_tunnel b.conns ∙ ground (arith, eq_refl model, p))
  | inr u ↦ elim (tidy i (ground (arith, l, u))) [
    | inl g ↦ inl (ground (arith, u, g))
    | inr (n, k) ↦
        inr (n, ground (arith, lookup-insert model n b.next_tunnel b.conns, k, e, eq_iff model n))
  ]
]

made-IsTidy :
    (now : ℕ) (model : String) (want : ReplicaEndpoint) (ok : Bool) (b : SshBackend)
    → lookup model b.conns ≡ none
    → IsTidy b
    → IsTidy (settled now model want (if ok then made_of want b else (b, none)))
unfolding settle
made-IsTidy now model want false b e tidy = tidy
made-IsTidy now model want true b e tidy =
    install-IsTidy model want b (lookup model b.conns) e e tidy

pinned-IsTidy :
    (addr f : String) (o : Option String) (now : ℕ) (model : String) (want : ReplicaEndpoint)
    (ok : Bool) (b : SshBackend)
    → lookup model b.conns ≡ none
    → IsTidy b
    → IsTidy (settled now model want (made_if want ok (pinned addr f b o)))
pinned-IsTidy addr f none now model want ok b =
    made-IsTidy now model want ok (record b { host_keys = insert addr f b.host_keys })
pinned-IsTidy addr f (some k) now model want ok b = made-IsTidy now model want (str_eq k f && ok) b

tried-IsTidy :
    (addr : String) (now : ℕ) (model : String) (want : ReplicaEndpoint) (hs : Handshake)
    (b : SshBackend)
    → lookup model b.conns ≡ none
    → IsTidy b
    → IsTidy (settled now model want (dial addr want hs b))
unfolding settle dial pin_host_key
tried-IsTidy addr now model want unreachable b = λ e tidy. tidy
tried-IsTidy addr now model want (offers f ok) b =
    pinned-IsTidy addr f (lookup addr b.host_keys) now model want ok b

retire_all-IsLetGo :
    (m : List (String × ℕ)) (b : SshBackend) (i : ℕ)
    → IsLetGo (b.heap i) ⊎ ((n : String) × (lookup n m ≡ some i))
    → IsLetGo ((retire_all m b).heap i)
retire_all-IsLetGo [] b i (inl g) = g
retire_all-IsLetGo [] b i (inr (n, e)) = ground (arith, e)
retire_all-IsLetGo ((x, j) ∷ m) b i h =
    ground (arith, h, retire_all-IsLetGo m b i, retired_of-IsLetGo ((retire_all m b).heap i))

retire_all-next :
    (m : List (String × ℕ)) (b : SshBackend) → (retire_all m b).next_tunnel ≡ b.next_tunnel
retire_all-next [] b = refl
retire_all-next ((x, j) ∷ m) b = retire_all-next m b

released_of-IsLetGo :
    (i j : ℕ) (b : SshBackend) → IsLetGo (b.heap j) → IsLetGo ((at_tunnel i released_of b).heap j)
released_of-IsLetGo i j b g = elim (Bool-cases ((b.heap j).refs == 1)) [
  | inl e ↦ ground (arith, e, g)
  | inr e ↦ ground (arith, e, g)
]

evict-IsTidy :
    (model : String) (i : ℕ) (b : SshBackend)
    → (b.heap i).closed ≡ true
    → IsTidy b
    → IsTidy (evict model i b)
unfolding evict
evict-IsTidy model i b c tidy j l = elim (Option-cases (lookup model b.conns)) [
  | inl e ↦ rw e (tidy j l)
  | inr (k, e) ↦ rw e (elim (Bool-cases (k == i)) [
    | inr q ↦ rw q (tidy j l)
    | inl q ↦ rw q (
        without-IsKept model k b b.heap j e
          (inl (let p : k ≡ i = ground (arith, q) in ap (λ x. (b.heap x).closed) p ∙ c)) (λ g. g)
          (tidy j l))
  ])
]

-- If every tunnel is given to a Model's requests, or closed, or retired with a response that streams
-- over it, this is so after every step, unless a dial ends after another request has put a tunnel in the
-- Model's place, or a tunnel is evicted before its connection has died.
pub step-IsTidy : (op : Op) (b : SshBackend) → IsCalm b op → IsTidy b → IsTidy (step op b)
unfolding step shut
step-IsTidy (looked cache load now model) b calm tidy j l =
    look-IsTidy cache load now model b tidy j l
step-IsTidy (tried addr now model want hs) b calm tidy j l =
    tried-IsTidy addr now model want hs b calm tidy j l
step-IsTidy (sent i) b calm tidy j l = ground (arith, tidy j l)
step-IsTidy (ended i) b calm tidy j l = elim (tidy j l) [
  | inl g ↦ inl (released_of-IsLetGo i j b g)
  | inr k ↦ inr k
]
step-IsTidy (died i) b calm tidy j l = ground (arith, tidy j l)
step-IsTidy (evicted model i) b calm tidy j l = evict-IsTidy model i b calm tidy j l
step-IsTidy shut_down b calm tidy j l =
    inl (retire_all-IsLetGo b.conns b j (tidy j (subst (λ n. j < n) (retire_all-next b.conns b) l)))

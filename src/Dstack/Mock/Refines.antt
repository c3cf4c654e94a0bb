-- ===== src/Dstack/Mock/Refines.antt =====
-- The fake server's Apply as a compare-and-set on each name.
use squall.Common.{
  ◌↔◌, ℕ, suc, ◌<◌, ◌≡◌, ◌≢◌, ◌⊎◌, inl, inr, refl, sym, ap, ◌∙◌, subst, Bool, true, false, not,
  ◌&&◌, Option, none, some, String, arith, Bool-cases, lookup, lookup-insert, eq_iff, eq_refl, ltb,
  if◌then◌else◌,
}
use squall.Dstack.Mock.{
  RunId, Service, Server, Anchor, ApplyRequest, resource_changed, cannot_override, Run, run_for,
  same_id, same_seconds, minted, is_current, applied, Answer, granted, refused, grant, mint,
  apply_to, apply,
}

-- What a name stands for: nothing, a run that died, or a live run with its deployment,
-- replicas and idle duration.
pub data View : Type 0 where
  absent died : View
  live : RunId → ℕ → ℕ → Option ℕ → View

abbrev pub view_of : Option Service → View
view_of none = absent
view_of (some svc) =
    if svc.terminal then died else live svc.run_id svc.deployment_num svc.replicas svc.idle_duration

abbrev pub view : String → Server → View
view name s = view_of (lookup name s.services)

abbrev pub IsGone : View → Type 0
IsGone absent = Unit
IsGone died = Unit
IsGone (live i k r d) = ⊥

-- The run of the answer, by its id, deployment and replicas.
abbrev pub IsRun : RunId → ℕ → ℕ → Run → Type 0
IsRun i k r run = (run.run_id ≡ i) × (run.deployment_num ≡ k) × (run.replicas ≡ r)

-- The compare-and-set: an Apply of `replicas` and the idle duration `idle` against `current`, from one
-- view to another, and its answer, where a run that is minted gets the id `fresh`. A run with replicas
-- takes no other idle duration in place.
pub data Sets (fresh : RunId) (replicas : ℕ) (idle : Option ℕ) (current : Option Anchor)
    : View → View → Answer → Type 0 where
  starts :
      (v : View) (run : Run)
      → IsGone v
      → IsRun fresh 1 replicas run
      → Sets fresh replicas idle current v (live fresh 1 replicas idle) (granted run)
  flips :
      (i : RunId) (k r : ℕ) (d : Option ℕ) (run : Run)
      → current ≡ some (record { run_id = i; deployment_num = k })
      → (r ≡ 0) ⊎ (d ≡ idle)
      → IsRun i (suc k) replicas run
      → Sets fresh replicas idle current (live i k r d) (live i (suc k) replicas idle) (granted run)
  conflicts :
      (i : RunId) (k r : ℕ) (d : Option ℕ)
      → current ≢ some (record { run_id = i; deployment_num = k })
      → Sets fresh replicas idle current (live i k r d) (live i k r d) (refused resource_changed)
  overrides :
      (i : RunId) (k r : ℕ) (d : Option ℕ)
      → current ≡ some (record { run_id = i; deployment_num = k })
      → 0 < r
      → d ≢ idle
      → Sets fresh replicas idle current (live i k r d) (live i k r d) (refused cannot_override)

same_seconds_iff : (a b : Option ℕ) → (same_seconds a b ≡ true) ↔ (a ≡ b)
same_seconds_iff none none = ground arith
same_seconds_iff none (some b) = ground arith
same_seconds_iff (some a) none = ground arith
same_seconds_iff (some a) (some b) = ground arith

same_id_iff : (a b : RunId) → (same_id a b ≡ true) ↔ (a ≡ b)
same_id_iff a b = ground (arith, eq_iff a.name b.name)

is_current_iff :
    (o : Option Anchor) (svc : Service)
    → (is_current o svc ≡ true)
      ↔ (o ≡ some (record { run_id = svc.run_id; deployment_num = svc.deployment_num }))
is_current_iff none svc = ground arith
is_current_iff (some a) svc = ground (arith, same_id_iff a.run_id svc.run_id)

abbrev pub is_override : ApplyRequest → Service → Bool
is_override req svc = ltb 0 svc.replicas && not (same_seconds svc.idle_duration req.idle_duration)

-- The four ways of an Apply to a service.
pub apply_to-gone :
    (req : ApplyRequest) (s : Server) (now : ℕ) (svc : Service)
    → svc.terminal ≡ true
    → apply_to req s now (some svc) ≡ mint req s now
unfolding apply_to
apply_to-gone req s now svc t = simp t

pub apply_to_conflict :
    (req : ApplyRequest) (s : Server) (now : ℕ) (svc : Service)
    → svc.terminal ≡ false
    → is_current req.current svc ≡ false
    → apply_to req s now (some svc) ≡ (s, refused resource_changed)
unfolding apply_to
apply_to_conflict req s now svc t c = simp (t, c)

pub apply_to_override :
    (req : ApplyRequest) (s : Server) (now : ℕ) (svc : Service)
    → svc.terminal ≡ false
    → is_current req.current svc ≡ true
    → is_override req svc ≡ true
    → apply_to req s now (some svc) ≡ (s, refused cannot_override)
unfolding apply_to
apply_to_override req s now svc t c o = simp (t, c, o)

pub apply_to-grant :
    (req : ApplyRequest) (s : Server) (now : ℕ) (svc : Service)
    → svc.terminal ≡ false
    → is_current req.current svc ≡ true
    → is_override req svc ≡ false
    → apply_to req s now (some svc) ≡ grant req s svc now
unfolding apply_to
apply_to-grant req s now svc t c o = simp (t, c, o)

grant-view :
    (req : ApplyRequest) (s : Server) (svc : Service) (now : ℕ)
    → svc.terminal ≡ false
    → view req.name (grant req s svc now).0
      ≡ live svc.run_id (suc svc.deployment_num) req.replicas req.idle_duration
unfolding grant applied
grant-view req s svc now t =
    ap view_of (lookup-insert req.name req.name (applied req svc now) s.services)
    ∙ rw (eq_refl req.name) (simp t)

-- What the Apply of a request means for the view of its name.
abbrev Meets : ApplyRequest → Server → View → Server × Answer → Type 0
Meets req s v r =
    Sets (record { name = req.name; number = suc s.seq }) req.replicas req.idle_duration req.current
      v (view req.name r.0) r.1

mint-Meets :
    (req : ApplyRequest) (s : Server) (now : ℕ) (v : View)
    → IsGone v
    → Meets req s v (mint req s now)
unfolding mint grant
mint-Meets req s now v g =
    let fresh = record s { seq = suc s.seq } in
    let svc = minted req.name (suc s.seq) now in
    rw (grant-view req fresh svc now refl)
      (starts v (run_for fresh req.name (applied req svc now) now) g (refl, refl, refl))

Sets-at :
    {fresh : RunId} {n : ℕ} {d : Option ℕ} {c : Option Anchor} {v v' w w' : View} {a : Answer}
    → v ≡ v'
    → w ≡ w'
    → Sets fresh n d c v' w' a
    → Sets fresh n d c v w a
Sets-at {fresh} {n} {d} {c} {v} {v'} {w} {w'} {a} e f h =
    subst (λ x. Sets fresh n d c x w a) (sym e) (subst (λ y. Sets fresh n d c v' y a) (sym f) h)

live_of :
    (svc : Service)
    → svc.terminal ≡ false
    → view_of (some svc) ≡ live svc.run_id svc.deployment_num svc.replicas svc.idle_duration
live_of svc t = simp t

gone_of : (svc : Service) → svc.terminal ≡ true → view_of (some svc) ≡ died
gone_of svc t = simp t

apply_to-Meets :
    (req : ApplyRequest) (s : Server) (now : ℕ) (o : Option Service)
    → lookup req.name s.services ≡ o
    → Meets req s (view_of o) (apply_to req s now o)
unfolding apply_to mint applied
apply_to-Meets req s now none e = mint-Meets req s now absent tt
apply_to-Meets req s now (some svc) e = elim (Bool-cases svc.terminal) [
  | inl t ↦
      rw (apply_to-gone req s now svc t)
        (Sets-at (gone_of svc t) refl (mint-Meets req s now died tt))
  | inr t ↦
      let here = live_of svc t in
      let kept = ap view_of e ∙ here in
      elim (Bool-cases (is_current req.current svc)) [
        | inr c ↦ rw (apply_to_conflict req s now svc t c) (
            Sets-at here kept (
              conflicts svc.run_id svc.deployment_num svc.replicas svc.idle_duration
                (λ q. ground (arith, c, (is_current_iff req.current svc).1 q))))
        | inl c ↦
            let at = (is_current_iff req.current svc).0 c in
            let same = same_seconds_iff svc.idle_duration req.idle_duration in
            elim (Bool-cases (is_override req svc)) [
              | inl o ↦ rw (apply_to_override req s now svc t c o) (
                  Sets-at here kept (
                    overrides svc.run_id svc.deployment_num svc.replicas svc.idle_duration at
                      (ground (arith, o)) (λ q. ground (arith, o, same.1 q))))
              | inr o ↦ rw (apply_to-grant req s now svc t c o) (
                  Sets-at here (grant-view req s svc now t) (
                    flips svc.run_id svc.deployment_num svc.replicas svc.idle_duration
                      (run_for s req.name (applied req svc now) now) at (ground (arith, o, same))
                      (refl, refl, refl)))
            ]
      ]
]

grant-others :
    (req : ApplyRequest) (s : Server) (svc : Service) (now : ℕ) (other : String)
    → other ≢ req.name
    → lookup other (grant req s svc now).0.services ≡ lookup other s.services
unfolding grant
grant-others req s svc now other n =
    lookup-insert req.name other (applied req svc now) s.services
    ∙ ground (arith, eq_iff req.name other, n)

apply_to-others :
    (req : ApplyRequest) (s : Server) (now : ℕ) (o : Option Service) (other : String)
    → other ≢ req.name
    → lookup other (apply_to req s now o).0.services ≡ lookup other s.services
unfolding apply_to mint
apply_to-others req s now none other n =
    grant-others req (record s { seq = suc s.seq }) (minted req.name (suc s.seq) now) now other n
apply_to-others req s now (some svc) other n = elim (Bool-cases svc.terminal) [
  | inl t ↦ rw (apply_to-gone req s now svc t) (
      grant-others req (record s { seq = suc s.seq }) (minted req.name (suc s.seq) now) now other n)
  | inr t ↦ elim (Bool-cases (is_current req.current svc)) [
    | inr c ↦ rw (apply_to_conflict req s now svc t c) refl
    | inl c ↦ elim (Bool-cases (is_override req svc)) [
      | inl o ↦ rw (apply_to_override req s now svc t c o) refl
      | inr o ↦ rw (apply_to-grant req s now svc t c o) (grant-others req s svc now other n)
    ]
  ]
]

-- An Apply without Force is a compare-and-set on the view of its name, and leaves every other name as
-- it is: a run is minted where there is none or a dead one; the live run that `current` names is
-- replaced by its next deployment, unless it has replicas and another idle duration is asked for, which is
-- refused as an override; and with any other `current` a live run is kept, and the Apply refused as stale.
pub apply_refines :
    (req : ApplyRequest) (s : Server) (now : ℕ)
    → req.force ≡ false
    → Sets
        (record { name = req.name; number = suc s.seq })
        req.replicas
        req.idle_duration
        req.current
        (view req.name s)
        (view req.name (apply req s now).0)
        (apply req s now).1
      × ((other : String) → other ≢ req.name → view other (apply req s now).0 ≡ view other s)
unfolding apply
apply_refines req s now f = simp f (
  apply_to-Meets req s now (lookup req.name s.services) refl,
  λ other n. ap view_of (apply_to-others req s now (lookup req.name s.services) other n),
)

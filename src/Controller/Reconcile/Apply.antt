-- ===== src/Controller/Reconcile/Apply.antt =====
-- The Applies that a pass of Reconcile makes.
use squall.Common.{
  ℤ, ℕ, ◌<◌, ◌≡◌, ◌≢◌, inl, inr, refl, sym, ap, ◌∙◌, subst, true, ◌&&◌, some, String, List, arith,
  Elem, Holds, Holds-mono, Bool-cases, Option-cases, ltb,
}
use squall.Api.{Model, ModelSpec}
use squall.Api.Conditions.{ConditionOps}
use squall.Dstack.{Run}
use squall.Controller.Phase.{Observed, Action, decide, want_awake}
use squall.Controller.Phase.FailSafe.{Durations, Justified, decide_stops_iff}
use squall.Controller.Phase.Wake.{decide-IsCoherent, IsDown}
use squall.Controller.Observe.{observe}
use squall.Controller.Validation.Rules.{IsValidSpec}
use squall.Controller.Schedulable.{Parsed}
use squall.Controller.Schedulable.Veto.{
  IsPayable, check_schedulable-apply, check_schedulable-KeepsTarget,
}
use squall.Controller.Ownership.{with_model_uid}
use squall.Controller.Secrets.{Secrets, KeyAnswers, resolve_env, apply_env_for}
use squall.Controller.Secrets.Resolve.{apply_env_for-wake, apply_env_for-flip}
use squall.Controller.Actuation.{apply_durations_for}
use squall.Dstack.{ApplyRequest}
use squall.Controller.World.{World, apply_run}
use squall.Controller.Opening.{decided, status_before, has_demand}
use squall.Controller.Reconcile.{reconcile, request}
use squall.Controller.Reconcile.Steps.{Asks-of}

-- What an Apply after the checks says of the action before them.
pub record IsCleared (spec : ModelSpec) (parse : String → Parsed) (before after : Action)
    : Type 0 where
  pub apply : before.apply ≡ true
  pub replicas : after.replicas ≡ before.replicas
  pub current : after.current ≡ before.current
  pub checked :
      0 < before.replicas → IsPayable parse spec.placement.max_price_per_hour × IsValidSpec spec

pub decided-IsCleared :
    (meta : ConditionOps) (w : World) (m : Model) (observed : Observed) (now : ℕ)
    → (decided meta w m observed now).action.apply ≡ true
    → IsCleared m.spec w.parse
        (decide meta observed
          (status_before meta w.wall m observed now)
          m.spec
          (has_demand m now)
          now).1
        (decided meta w m observed now).action
unfolding decided
decided-IsCleared meta w m observed now h =
    let status = status_before meta w.wall m observed now in
    let d = decide meta observed status m.spec (has_demand m now) now in
    elim (Bool-cases (d.1.apply && ltb 0 d.1.replicas)) [
      | inl e ↦
          let h' = rw (e, decided) at h in
          let kept =
            check_schedulable-KeepsTarget meta w.wall w.parse m.spec status d.0 d.1 w.backends in
          let ok =
            (check_schedulable-apply meta w.wall w.parse m.spec status d.0 d.1 w.backends).0 h' in
          rw (e, decided)
            (record {
              apply = ok.0;
              replicas = kept.1;
              current = kept.0;
              checked = λ _. (ok.1, ok.2);
            })
      | inr e ↦
          let h' = rw (e, decided) at h in
          rw (e, decided)
            (record {
              apply = h';
              replicas = refl;
              current = refl;
              checked = λ p. ground (arith, e, h', p);
            })
    ]

-- A wake that is safe to bill for.
pub record IsSafeWake (w : World) (m : Model) (now : ℕ) (observed : Observed) (req : ApplyRequest)
    : Type 0 where
  pub payable : IsPayable w.parse m.spec.placement.max_price_per_hour
  pub valid : IsValidSpec m.spec
  pub wanted : want_awake m.spec (has_demand m now) ≡ true
  pub down : IsDown observed.run
  pub one : req.replicas ≡ 1
  pub anchored : req.current ≡ observed.run
  -- All credentials are there, and the run is marked as this Model's.
  pub env : List (String × String)
  pub credentials : resolve_env w.secrets m.spec ≡ some env
  pub marked : req.env ≡ with_model_uid env m

wake_resolved :
    (secrets : Secrets) (keys : KeyAnswers) (m : Model) (action : Action)
    (env : List (String × String)) (key : String)
    → 0 < action.replicas
    → apply_env_for secrets keys m action ≡ some (env, key)
    → (res : List (String × String)) × (resolve_env secrets m.spec ≡ some res)
      × (env ≡ with_model_uid res m)
wake_resolved secrets keys m action env key p e =
    let e' = sym (apply_env_for-wake secrets keys m action p) ∙ e in
    elim (Option-cases (resolve_env secrets m.spec)) [
      | inl n ↦ let e'' = rw n at e' in ground (arith, e'')
      | inr (res, n) ↦ let e'' = rw n at e' in (res, n, ground (arith, e''))
    ]

-- An Apply of a pass that asks for a replica asks for exactly one, against what this pass observed, while
-- nothing is up and the Model is wanted, with a payable price, a valid spec, all credentials resolved and
-- the Model's UID stamped.
pub reconcile_wakes :
    (meta : ConditionOps) (w : World) (m : Model) (now : ℕ) (req : ApplyRequest)
    → Elem (apply_run req) (reconcile meta w m now).calls
    → 0 < req.replicas
    → (observed : Observed) × (observe w.get w.activity m.spec now ≡ some observed)
      × IsSafeWake w m now observed req
unfolding request
reconcile_wakes meta w m now req i p =
    let a = Asks-of meta w m now req i in
    let o = a.observed in
    let status = status_before meta w.wall m o now in
    let c = decided-IsCleared meta w m o now a.applies in
    let replicas : req.replicas ≡ (decided meta w m o now).action.replicas =
      ap (λ r. r.replicas) a.is_request in
    let current : req.current ≡ (decided meta w m o now).action.current =
      ap (λ r. r.current) a.is_request in
    let env : req.env ≡ a.env = ap (λ r. r.env) a.is_request in
    let coherent = decide-IsCoherent meta status m.spec (has_demand m now) o now in
    let up = subst (λ n. 0 < n) (replicas ∙ c.replicas) p in
    let wake = coherent.wanted_wake (c.apply, omega (arith, coherent.one, up)) in
    let ok = c.checked up in
    let (res, r, e) =
      wake_resolved w.secrets w.keys m (decided meta w m o now).action a.env a.key
        (subst (λ n. 0 < n) replicas p) a.resolved in
    (
      o,
      a.is_observed,
      record {
        payable = ok.0;
        valid = ok.1;
        wanted = wake.0;
        down = wake.2;
        one = omega (arith, coherent.one, p, replicas, c.replicas);
        anchored = current ∙ (c.current ∙ coherent.anchored c.apply);
        env = res;
        credentials = r;
        marked = env ∙ e;
      },
    )

-- The env, key and durations of the run that is up sent back as they stand, against that run.
pub record IsVerbatim (req : ApplyRequest) (run : Run) : Type 0 where
  pub is_up : run.replicas ≢ 0
  pub anchored : req.current ≡ some run
  pub env : req.env ≡ run.env
  pub key : req.ssh_key_pub ≡ run.ssh_key_pub
  pub idle : req.idle_duration ≡ run.idle_duration
  pub hard : req.max_duration ≡ run.max_duration

flip_durations :
    (spec : ModelSpec) (action : Action) (run : Run)
    → action.replicas ≡ 0
    → action.current ≡ some run
    → apply_durations_for spec action ≡ (run.idle_duration, run.max_duration)
unfolding apply_durations_for
flip_durations spec action run z c = rw (z, c) refl

flip-IsVerbatim :
    (seconds : ℤ → ℤ) (secrets : Secrets) (keys : KeyAnswers) (m : Model) (action : Action)
    (run : Run) (env : List (String × String)) (key : String)
    → run.replicas ≢ 0
    → action.replicas ≡ 0
    → action.current ≡ some run
    → apply_env_for secrets keys m action ≡ some (env, key)
    → IsVerbatim (request seconds m action env key) run
unfolding request
flip-IsVerbatim seconds secrets keys m action run env key u z c e =
    let same = sym (apply_env_for-flip secrets keys m action run z c) ∙ e in
    let d = flip_durations m.spec action run z c in
    record {
      is_up = u;
      anchored = c;
      env = ground (arith, same);
      key = ground (arith, same);
      idle = ap (λ p. p.0) d;
      hard = ap (λ p. p.1) d;
    }

-- What a decision to stop says of the action that is carried out.
flip_cleared :
    (meta : ConditionOps) (w : World) (m : Model) (now : ℕ) (ds : Durations m.spec)
    (observed : Observed)
    → (decided meta w m observed now).action.apply ≡ true
    → (decided meta w m observed now).action.replicas ≡ 0
    → Justified ds observed (status_before meta w.wall m observed now) (has_demand m now) now
      × Holds
          (λ run. (run.replicas ≢ 0) × ((decided meta w m observed now).action.current ≡ some run))
          observed.run
flip_cleared meta w m now ds observed h z =
    let status = status_before meta w.wall m observed now in
    let c = decided-IsCleared meta w m observed now h in
    let stops =
      (decide_stops_iff meta ds observed status (has_demand m now) now).0
        (c.apply, sym c.replicas ∙ z) in
    let action = (decided meta w m observed now).action in
    let current =
      c.current
      ∙ (decide-IsCoherent meta status m.spec (has_demand m now) observed now).anchored c.apply in
    (
      stops.1,
      Holds-mono (λ run. run.replicas ≢ 0) (λ run. (run.replicas ≢ 0) × (action.current ≡ some run))
          observed.run (λ run e u. (u, current ∙ e)) stops.0,
    )

-- For durations within an int64, an Apply of a pass that asks for no replica is justified by what this
-- pass observed, goes against the run that is up, and sends the env, the SSH key, the idle duration and
-- the maximum duration of that run back as they stand.
pub reconcile_flips :
    (meta : ConditionOps) (w : World) (m : Model) (now : ℕ) (ds : Durations m.spec)
    (req : ApplyRequest)
    → Elem (apply_run req) (reconcile meta w m now).calls
    → req.replicas ≡ 0
    → (observed : Observed) × (observe w.get w.activity m.spec now ≡ some observed)
      × Justified ds observed (status_before meta w.wall m observed now) (has_demand m now) now
      × Holds (IsVerbatim req) observed.run
unfolding request
reconcile_flips meta w m now ds req i z =
    let a = Asks-of meta w m now req i in
    let o = a.observed in
    let action = (decided meta w m o now).action in
    let none_asked : action.replicas ≡ 0 = sym (ap (λ r. r.replicas) a.is_request) ∙ z in
    let f = flip_cleared meta w m now ds o a.applies none_asked in
    (
      o,
      a.is_observed,
      f.0,
      Holds-mono (λ run. (run.replicas ≢ 0) × (action.current ≡ some run)) (IsVerbatim req) o.run
          (λ run e s.
            subst (λ r. IsVerbatim r run) (sym a.is_request)
              (flip-IsVerbatim w.seconds w.secrets w.keys m action run a.env a.key s.0 none_asked
                s.1 a.resolved))
          f.1,
    )

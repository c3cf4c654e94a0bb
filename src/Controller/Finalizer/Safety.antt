-- ===== src/Controller/Finalizer/Safety.antt =====
-- What a pass of the teardown of finalizer.go may destroy, and on what evidence.
use squall.Common.{
  ℕ, pos, ◌+◌, ◌<◌, ◌≡◌, ◌≢◌, ◌↔◌, ◌⊎◌, inl, inr, refl, Bool, true, false, some, List, [], ◌∷◌,
  arith, Elem, not, if◌then◌else◌, sub_time-gt, max_duration,
}
use squall.Api.{Model, ModelPhase, draining}
use squall.Dstack.{is_terminal, failed, GetOutcome, found, get_not_found, get_failed}
use squall.Controller.Finalizer.{
  Env, Call, Pass, reconcile_delete, teardown, past_deadline, is_draining, drain_timeout_or_default,
  drain_evidence_clean, stop_run, delete_run, get_run, remove_finalizer, patch_draining, finished,
  patch_error,
}

-- dstack says that the run is finished, or that there is none.
abbrev pub IsGone : GetOutcome → Type 0
IsGone (found run) = is_terminal run ≡ true
IsGone get_not_found = Unit
IsGone get_failed = ⊥

-- A run that nothing is in flight on, or whose drain deadline has passed.
abbrev pub IsDrained : Env → Bool → GetOutcome → Type 0
IsDrained env late (found run) =
    (run.replicas ≡ 0) ⊎ (late ≡ true) ⊎ (drain_evidence_clean env.activity ≡ true)
IsDrained env late get_not_found = ⊥
IsDrained env late get_failed = ⊥

-- What holds of every pass over a Model with or without the finalizer, before or past the deadline.
pub record IsSafePass (get : GetOutcome) (env : Env) (held late : Bool) (p : Pass) : Type 0 where
  -- A run is stopped only if it is not finished, and drained or past the deadline.
  pub stops : Elem stop_run p.calls → (¬ IsGone get) × IsDrained env late get
  -- Delete is asked for only of a finished run, or where there is none.
  pub deletes : Elem delete_run p.calls → IsGone get
  -- The finalizer goes only after a Delete that did not fail.
  pub removes : Elem remove_finalizer p.calls → Elem delete_run p.calls × (env.delete ≢ failed)
  pub keeps : held ≡ true → p.model.has_finalizer ≡ false → Elem remove_finalizer p.calls
  -- Nothing is destroyed before Draining is on record.
  pub announces :
      (Elem stop_run p.calls ⊎ Elem delete_run p.calls) → p.model.status.phase ≡ draining

-- The calls that come before the Get's answer is used.
abbrev opening : Bool → List Call
opening true = patch_draining ∷ get_run ∷ []
opening false = get_run ∷ []

teardown-IsSafePass :
    (get : GetOutcome) (env : Env) (m : Model) (now : ℕ) (patched : Bool)
    → m.status.phase ≡ draining
    → IsSafePass get env m.has_finalizer
        (past_deadline m now)
        (teardown get env m now (opening patched))
unfolding teardown
teardown-IsSafePass get_failed env m now true d = ground arith
teardown-IsSafePass get_failed env m now false d = ground arith
teardown-IsSafePass get_not_found env m now true d = ground arith
teardown-IsSafePass get_not_found env m now false d = ground arith
teardown-IsSafePass (found run) env m now true d = ground arith
teardown-IsSafePass (found run) env m now false d = ground arith

draining-cases : (p : ModelPhase) → (p ≡ draining) ⊎ (is_draining p ≡ false)
draining-cases p = ground arith

-- reconcile_delete over the values of its first tests.
abbrev opened : Env → Model → ℕ → Bool → Bool → Bool → Pass
opened env m now held drain ok =
    if not held
    then record { model = m; calls = []; result = finished }
    else if not drain
    then (if ok
        then teardown env.get env (record m { status = record (m.status) { phase = draining } }) now
            (opening true)
        else record { model = m; calls = patch_draining ∷ []; result = patch_error })
    else teardown env.get env m now (opening false)

opened-IsSafePass :
    (env : Env) (m : Model) (now : ℕ) (held drain ok : Bool)
    → m.has_finalizer ≡ held
    → ((m.status.phase ≡ draining) ⊎ (drain ≡ false))
    → IsSafePass env.get env m.has_finalizer (past_deadline m now) (opened env m now held drain ok)
unfolding past_deadline
opened-IsSafePass env m now false drain ok h d = ground arith
opened-IsSafePass env m now true false false h d = ground arith
opened-IsSafePass env m now true false true h d =
    teardown-IsSafePass env.get env (record m { status = record (m.status) { phase = draining } })
      now true refl
opened-IsSafePass env m now true true ok h (inl d) = teardown-IsSafePass env.get env m now false d
opened-IsSafePass env m now true true ok h (inr d) = cc

-- Every pass is safe: a run is stopped only once it is drained or its deadline has passed, deleted
-- only once dstack calls it finished or absent, the finalizer goes only after a Delete that did not
-- fail, and Draining is on record before anything is destroyed.
pub reconcile_delete-IsSafePass :
    (env : Env) (m : Model) (now : ℕ)
    → IsSafePass env.get env m.has_finalizer (past_deadline m now) (reconcile_delete env m now)
unfolding reconcile_delete
reconcile_delete-IsSafePass env m now =
    opened-IsSafePass env m now m.has_finalizer (is_draining m.status.phase) env.patch_ok refl
      (draining-cases m.status.phase)

-- The deadline is the drain timeout, 120 s where the spec's is not positive, after the deletion.
pub past_deadline_iff :
    (m : Model) (d t now : ℕ)
    → m.deletion_timestamp ≡ some t
    → drain_timeout_or_default m.spec ≡ pos d
    → d < max_duration
    → (past_deadline m now ≡ true) ↔ (t + d < now)
unfolding past_deadline
past_deadline_iff m d t now e k h = ground (arith, sub_time-gt now t d)

-- ===== src/Controller/Reconcile/Pacing.antt =====
-- A pass of Reconcile that finds the run failed.
use squall.Common.{
  ℕ, ◌+◌, ◌≡◌, ◌≢◌, refl, sym, ap, ◌∙◌, Bool, true, false, Option, none, some, arith, Elem, subst,
}
use squall.Api.{Model, ModelStatus, ModelSpec, provisioning, unset}
use squall.Api.Conditions.{ConditionOps}
use squall.Dstack.{Run, ProvisioningFailure, is_terminal, found}
use squall.Controller.Phase.{
  Observed, decide, want_awake, backoff_of, backoff_reasons, provisioning_retry_backoff,
}
use squall.Controller.Phase.Wake.{decide_paces}
use squall.Controller.Observe.{observe, nothing, failure_of}
use squall.Controller.Journal.{update_activity_status}
use squall.Controller.Ownership.{run_name_for, reconcile_run_ownership}
use squall.Controller.Failure.{reason_of, message_of, failure_condition}
use squall.Controller.Failure.Pace.{IsKnown, backoff_of-failure, find-report_failure}
use squall.Dstack.{ApplyRequest}
use squall.Controller.World.{World, apply_run}
use squall.Controller.Opening.{decided, status_before, has_demand}
use squall.Controller.Reconcile.{reconcile}
use squall.Controller.Reconcile.Apply.{decided-IsCleared}
use squall.Controller.Reconcile.Steps.{Asks-of}

-- What is observed of a failed run.
abbrev pub failed_run : ProvisioningFailure → Observed
failed_run f = record nothing { provisioning_failure = some f }

observe-terminal :
    (w : World) (spec : ModelSpec) (now : ℕ) (run : Run)
    → w.get ≡ found run
    → is_terminal run ≡ true
    → observe w.get w.activity spec now
      ≡ some (failed_run (failure_of run run.provisioning_failure))
unfolding observe
observe-terminal w spec now run g t = rw g (simp t)

-- The conditions that the failure is judged against are those on record.
conditions-owned :
    (meta : ConditionOps) (wall : ℕ) (m : Model) (status : ModelStatus)
    → (reconcile_run_ownership meta wall (record m { status = status }) none).conditions
      ≡ status.conditions
unfolding reconcile_run_ownership
conditions-owned meta wall m status = refl

conditions-update_activity :
    (status : ModelStatus) (observed : Observed) (demand : Bool) (now : ℕ)
    → (update_activity_status status observed demand now).0.conditions ≡ status.conditions
unfolding update_activity_status
conditions-update_activity status observed demand now = ground arith

find-status_before :
    (meta : ConditionOps) (wall : ℕ) (m : Model) (f : ProvisioningFailure) (now : ℕ)
    → now ≢ 0
    → ¬ IsKnown (meta.find m.status.conditions provisioning) (message_of f)
    → meta.find (status_before meta wall m (failed_run f) now).conditions provisioning
      ≡ some (failure_condition f now)
unfolding status_before
find-status_before meta wall m f now n k =
    let named = record (m.status) { run_name = run_name_for m } in
    let journaled = (update_activity_status named (failed_run f) (has_demand m now) now).0 in
    let owned = reconcile_run_ownership meta wall (record m { status = journaled }) none in
    let same : owned.conditions ≡ m.status.conditions =
      conditions-owned meta wall m journaled
      ∙ conditions-update_activity named (failed_run f) (has_demand m now) now in
    find-report_failure meta wall owned f unset now n
      (subst (λ cs. ¬ IsKnown (meta.find cs provisioning) (message_of f)) (sym same) k)

abbrev or_nothing : Observed → Option Observed → Observed
or_nothing a none = a
or_nothing a (some b) = b

same_observed : (a b : Observed) → some a ≡ some b → a ≡ b
same_observed a b e = ap (or_nothing a) e

no_apply :
    (meta : ConditionOps) (w : World) (m : Model) (now : ℕ) (observed : Observed)
    (req : ApplyRequest)
    → observe w.get w.activity m.spec now ≡ some observed
    → (decide meta observed
        (status_before meta w.wall m observed now)
        m.spec
        (has_demand m now)
        now).1.apply
      ≡ false
    → ¬ Elem (apply_run req) (reconcile meta w m now).calls
no_apply meta w m now observed req o h i =
    let a = Asks-of meta w m now req i in
    let same = same_observed a.observed observed (sym a.is_observed ∙ o) in
    let applies = subst (λ x. (decided meta w m x now).action.apply ≡ true) same a.applies in
    let c = decided-IsCleared meta w m observed now applies in ground (arith, sym c.apply ∙ h)

-- The pass that finds, after the zero Time, a run dead of a shortage at the backend which is not on
-- record yet does not start another: it makes no Apply, and where the Model is wanted it says that the next wake is due a
-- minute later.
pub failure_paces :
    (meta : ConditionOps) (w : World) (m : Model) (now : ℕ) (run : Run)
    → let f = failure_of run run.provisioning_failure in
      w.get ≡ found run
      → is_terminal run ≡ true
      → now ≢ 0
      → ¬ IsKnown (meta.find m.status.conditions provisioning) (message_of f)
      → backoff_reasons (reason_of f) ≡ true
      → ((req : ApplyRequest) → ¬ Elem (apply_run req) (reconcile meta w m now).calls)
        × (want_awake m.spec (has_demand m now) ≡ true
            → let a =
                (decide meta
                  (failed_run f)
                  (status_before meta w.wall m (failed_run f) now)
                  m.spec
                  (has_demand m now)
                  now).1 in
              (a.throttled ≡ true) × (a.throttled_until ≡ now + provisioning_retry_backoff))
failure_paces meta w m now run g t n k b =
    let f = failure_of run run.provisioning_failure in
    let status = status_before meta w.wall m (failed_run f) now in
    let paced =
      decide_paces meta status m.spec (has_demand m now) (failed_run f) now
        (now + provisioning_retry_backoff) refl
        (ap (λ c. backoff_of c now) (find-status_before meta w.wall m f now n k)
          ∙ backoff_of-failure f now n b) in
    (
      λ req.
          no_apply meta w m now (failed_run f) req (observe-terminal w m.spec now run g t) paced.0,
      paced.1,
    )

-- ===== src/Controller/Reconcile/Names.antt =====
-- The name of the run over the passes of Reconcile.
use squall.Common.{
  ℕ, ◌≡◌, ◌⊎◌, inl, inr, refl, ap, ◌∙◌, Bool, ◌&&◌, Option, none, some, String, List, [], ◌∷◌,
  arith, Bool-cases, ltb,
}
use squall.Api.{Model, ModelStatus, ModelPhase, unset}
use squall.Api.Conditions.{ConditionOps}
use squall.Dstack.{Run, ProvisioningFailure}
use squall.Controller.Phase.{Observed, Action, decide, unset_time}
use squall.Controller.Observe.{observe}
use squall.Controller.Journal.{update_activity_status}
use squall.Controller.Ownership.{reconcile_run_ownership, run_name_for}
use squall.Controller.Ownership.Identity.{run_name-reconcile_run_ownership, run_name_for-kept}
use squall.Controller.Schedulable.Names.{run_name-check_schedulable}
use squall.Controller.Failure.{report_provisioning_condition}
use squall.Controller.Schedulable.{Checked}
use squall.Controller.Actuation.{after_apply}
use squall.Controller.Refusal.{cannot_override_run, other_error, recover_from_override_refusal}
use squall.Controller.World.{World, Applied, applied, apply_failed, Call, apply_run}
use squall.Controller.Opening.{decided, status_before, with_run, with_failure, has_demand}
use squall.Controller.Closing.{with_health, closing_status, verify_served}
use squall.Controller.Secrets.{apply_env_for}
use squall.Controller.Finalizer.Identity.{reconcile_delete-IsSame}
use squall.Controller.Finalizer.{Env, reconcile_delete}
use squall.Controller.Reconcile.Steps.{act-applying, act-idle, reconcile-live}
use squall.Controller.Reconcile.{applying, after_answer, request, reconcile, finish, act, live_pass}

run_name-update_activity :
    (status : ModelStatus) (observed : Observed) (demand : Bool) (now : ℕ)
    → (update_activity_status status observed demand now).0.run_name ≡ status.run_name
unfolding update_activity_status
run_name-update_activity status observed demand now = ground arith

run_name-report :
    (meta : ConditionOps) (wall : ℕ) (status : ModelStatus) (f : Option ProvisioningFailure)
    (phase : ModelPhase) (now : ℕ)
    → (report_provisioning_condition meta wall status f phase now).run_name ≡ status.run_name
unfolding report_provisioning_condition
run_name-report meta wall status none phase now = ground arith
run_name-report meta wall status (some f) phase now = ground arith

run_name-after_apply :
    (meta : ConditionOps) (wall : ℕ) (status : ModelStatus) (action : Action) (run : Run) (now : ℕ)
    → (after_apply meta wall status action run now).run_name ≡ status.run_name
unfolding after_apply
run_name-after_apply meta wall status action run now = ground arith

run_name-with_run :
    (run : Option Run) (status : ModelStatus) → (with_run run status).run_name ≡ status.run_name
run_name-with_run none status = refl
run_name-with_run (some run) status = refl

run_name-verify :
    (meta : ConditionOps) (w : World) (m : Model) (phase : ModelPhase) (status : ModelStatus)
    → (verify_served meta w m phase status).run_name ≡ status.run_name
unfolding verify_served
run_name-verify meta w m phase status = ground arith

run_name-with_failure :
    (meta : ConditionOps) (wall : ℕ) (f : Option ProvisioningFailure) (status : ModelStatus)
    (now : ℕ)
    → (with_failure meta wall f status now).run_name ≡ status.run_name
run_name-with_failure meta wall none status now = refl
run_name-with_failure meta wall (some f) status now =
    run_name-report meta wall status (some f) unset now

run_name-status_before :
    (meta : ConditionOps) (wall : ℕ) (m : Model) (observed : Observed) (now : ℕ)
    → (status_before meta wall m observed now).run_name ≡ run_name_for m
unfolding status_before
run_name-status_before meta wall m observed now =
    let named = record (m.status) { run_name = run_name_for m } in
    let journaled =
      (update_activity_status (with_run observed.run named) observed (has_demand m now) now).0 in
    run_name-with_failure meta wall observed.provisioning_failure
      (reconcile_run_ownership meta wall (record m { status = journaled }) observed.run) now
    ∙ (run_name-reconcile_run_ownership meta wall (record m { status = journaled }) observed.run
        ∙ (run_name-update_activity (with_run observed.run named) observed (has_demand m now) now
            ∙ run_name-with_run observed.run named))

run_name-decided :
    (meta : ConditionOps) (w : World) (m : Model) (observed : Observed) (now : ℕ)
    → (decided meta w m observed now).status.run_name ≡ run_name_for m
unfolding decided
run_name-decided meta w m observed now =
    let status = status_before meta w.wall m observed now in
    let d = decide meta observed status m.spec (has_demand m now) now in
    elim (Bool-cases (d.1.apply && ltb 0 d.1.replicas)) [
      | inl e ↦
          rw (e, decided)
            (run_name-check_schedulable meta w.wall w.parse m.spec status d.0 d.1 w.backends
              ∙ run_name-status_before meta w.wall m observed now)
      | inr e ↦ rw (e, decided) (run_name-status_before meta w.wall m observed now)
    ]

run_name-with_health :
    (meta : ConditionOps) (wall : ℕ) (action : Action) (status : ModelStatus)
    → (with_health meta wall action status).run_name ≡ status.run_name
run_name-with_health meta wall action status = ground arith

run_name-closing :
    (meta : ConditionOps) (w : World) (m : Model) (observed : Observed) (c : Checked)
    (status : ModelStatus) (now : ℕ)
    → (closing_status meta w m observed c status now).run_name ≡ status.run_name
unfolding closing_status
run_name-closing meta w m observed c status now =
    let reported =
      report_provisioning_condition meta w.wall status observed.provisioning_failure c.phase now in
    run_name-verify meta w m c.phase (with_health meta w.wall c.action reported)
    ∙ (run_name-with_health meta w.wall c.action reported
        ∙ run_name-report meta w.wall status observed.provisioning_failure c.phase now)

-- A pass keeps who the Model is, and which run is its own.
abbrev pub KeepsIdentity : Model → Model → Type 0
KeepsIdentity after before =
    (after.namespace ≡ before.namespace)
    × (after.name ≡ before.name)
    × (after.uid ≡ before.uid)
    × (after.spec ≡ before.spec)
    × ((after.status.run_name ≡ before.status.run_name)
        ⊎ (after.status.run_name ≡ run_name_for before))

finish-KeepsIdentity :
    (meta : ConditionOps) (w : World) (m : Model) (observed : Observed) (c : Checked)
    (status : ModelStatus) (now : ℕ) (calls : List Call)
    → status.run_name ≡ run_name_for m
    → KeepsIdentity (finish meta w m observed c status now calls).model m
unfolding finish
finish-KeepsIdentity meta w m observed c status now calls e =
    ground (arith, e, run_name-closing meta w m observed c status now)

after_answer-KeepsIdentity :
    (meta : ConditionOps) (w : World) (m : Model) (observed : Observed) (c : Checked) (now : ℕ)
    (calls : List Call) (a : Applied)
    → c.status.run_name ≡ run_name_for m
    → KeepsIdentity (after_answer meta w m observed c now calls a).model m
unfolding after_answer recover_from_override_refusal
after_answer-KeepsIdentity meta w m observed c now calls (applied run) e =
    finish-KeepsIdentity meta w m observed c (after_apply meta w.wall c.status c.action run now) now
      calls (run_name-after_apply meta w.wall c.status c.action run now ∙ e)
after_answer-KeepsIdentity meta w m observed c now calls (apply_failed other_error) e = ground arith
after_answer-KeepsIdentity meta w m observed c now calls (apply_failed cannot_override_run) e =
    elim (Bool-cases w.patch_ok) [
      | inl p ↦ simp p (ground (arith, e))
      | inr p ↦ simp p (ground arith)
    ]

applying-KeepsIdentity :
    (meta : ConditionOps) (w : World) (m : Model) (observed : Observed) (c : Checked) (now : ℕ)
    (r : Option (List (String × String) × String))
    → c.status.run_name ≡ run_name_for m
    → KeepsIdentity (applying meta w m observed c now r).model m
unfolding applying
applying-KeepsIdentity meta w m observed c now none e = ground arith
applying-KeepsIdentity meta w m observed c now (some (env, key)) e =
    after_answer-KeepsIdentity meta w m observed c now
      (apply_run (request w.seconds m c.action env key) ∷ []) w.apply e

act-KeepsIdentity :
    (meta : ConditionOps) (w : World) (m : Model) (observed : Observed) (c : Checked) (now : ℕ)
    → c.status.run_name ≡ run_name_for m
    → KeepsIdentity (act meta w m observed c now).model m
act-KeepsIdentity meta w m observed c now s = elim (Bool-cases c.action.apply) [
  | inr e ↦
      rw (act-idle meta w m observed c now e)
        (finish-KeepsIdentity meta w m observed c c.status now [] s)
  | inl e ↦
      rw (act-applying meta w m observed c now e) (
        applying-KeepsIdentity meta w m observed c now (apply_env_for w.secrets w.keys m c.action)
          s)
]

live_pass-KeepsIdentity :
    (meta : ConditionOps) (w : World) (m : Model) (now : ℕ) (o : Option Observed)
    → KeepsIdentity (live_pass meta w m now o).model m
unfolding live_pass
live_pass-KeepsIdentity meta w m now none = ground arith
live_pass-KeepsIdentity meta w m now (some observed) =
    act-KeepsIdentity meta w m observed (decided meta w m observed now) now
      (run_name-decided meta w m observed now)

delete-KeepsIdentity :
    (env : Env) (m : Model) (now : ℕ) → KeepsIdentity (reconcile_delete env m now).model m
delete-KeepsIdentity env m now =
    let e = reconcile_delete-IsSame env m now in
    (ap (λ i. i.0) e, ap (λ i. i.1) e, ap (λ i. i.2) e, ap (λ i. i.3) e, inl (ap (λ i. i.4) e))

pass-KeepsIdentity :
    (meta : ConditionOps) (w : World) (m : Model) (now : ℕ)
    → KeepsIdentity (reconcile meta w m now).model m
unfolding reconcile
pass-KeepsIdentity meta w m now = elim (Bool-cases (unset_time m.deletion_timestamp)) [
  | inr e ↦ rw (e, reconcile) (delete-KeepsIdentity w.drain m now)
  | inl e ↦ elim (Bool-cases m.has_finalizer) [
    | inl f ↦
        rw (reconcile-live meta w m now e f)
          (live_pass-KeepsIdentity meta w m now (observe w.get w.activity m.spec now))
    | inr f ↦ elim (Bool-cases w.update_ok) [
      | inl u ↦ simp (e, f, u, reconcile) (ground arith)
      | inr u ↦ simp (e, f, u, reconcile) (ground arith)
    ]
  ]
]

-- The Model after passes at the given instants, with the given answers.
abbrev pub after_passes : ConditionOps → List (World × ℕ) → Model → Model
after_passes meta [] m = m
after_passes meta ((w, now) ∷ ps) m = after_passes meta ps (reconcile meta w m now).model

-- However often a Model is reconciled, and whatever fails, its deletion included, the run that is its
-- own keeps the name.
pub run_name_for-after_passes :
    (meta : ConditionOps) (ps : List (World × ℕ)) (m : Model)
    → run_name_for (after_passes meta ps m) ≡ run_name_for m
run_name_for-after_passes meta [] m = refl
run_name_for-after_passes meta ((w, now) ∷ ps) m =
    let k = pass-KeepsIdentity meta w m now in
    let n = (reconcile meta w m now).model in
    run_name_for-after_passes meta ps n ∙ run_name_for-kept m n k.0 k.1 k.4

-- ===== src/Controller/Finalizer/Identity.antt =====
-- What a pass of reconcileDelete leaves of the Model.
use squall.Common.{
  ℕ, String, ◌≡◌, refl, inl, inr, true, ◌&&◌, not, ltb, List, [], ◌∷◌, ◌++◌, Bool-cases,
}
use squall.Api.{Model, ModelSpec, draining}
use squall.Dstack.{
  is_terminal, Outcome, done, not_found, failed, GetOutcome, found, get_not_found, get_failed,
}
use squall.Controller.Finalizer.{
  Env, Call, remove_step, after_delete, delete_step, after_stop, teardown, reconcile_delete,
  past_deadline, drain_evidence_clean, is_draining, stop_run, delete_run, get_run, patch_draining,
}

-- What says which object and which run it is.
abbrev identity_of : Model → String × String × String × ModelSpec × String
identity_of m = (m.namespace, m.name, m.uid, m.spec, m.status.run_name)

abbrev pub IsSame : Model → Model → Type 0
IsSame n m = identity_of n ≡ identity_of m

remove_step-IsSame :
    (env : Env) (m : Model) (calls : List Call) → IsSame (remove_step env m calls).model m
unfolding remove_step
remove_step-IsSame env m calls = elim (Bool-cases env.update_ok) [
  | inl e ↦ rw (e, remove_step) refl
  | inr e ↦ rw (e, remove_step) refl
]

after_delete-IsSame :
    (o : Outcome) (env : Env) (m : Model) (calls : List Call)
    → IsSame (after_delete o env m calls).model m
after_delete-IsSame failed env m calls = refl
after_delete-IsSame done env m calls = remove_step-IsSame env m calls
after_delete-IsSame not_found env m calls = remove_step-IsSame env m calls

delete_step-IsSame :
    (env : Env) (m : Model) (calls : List Call) → IsSame (delete_step env m calls).model m
unfolding delete_step
delete_step-IsSame env m calls = after_delete-IsSame env.delete env m (calls ++ (delete_run ∷ []))

after_stop-IsSame :
    (o : Outcome) (m : Model) (calls : List Call) → IsSame (after_stop o m calls).model m
after_stop-IsSame failed m calls = refl
after_stop-IsSame done m calls = refl
after_stop-IsSame not_found m calls = refl

teardown-IsSame :
    (g : GetOutcome) (env : Env) (m : Model) (now : ℕ) (calls : List Call)
    → IsSame (teardown g env m now calls).model m
unfolding teardown
teardown-IsSame get_failed env m now calls = refl
teardown-IsSame get_not_found env m now calls = delete_step-IsSame env m calls
teardown-IsSame (found run) env m now calls =
    elim (Bool-cases (
      (ltb 0 run.replicas && not (past_deadline m now))
      && not (drain_evidence_clean env.activity))) [
        | inl e ↦ simp e refl
        | inr e ↦ elim (Bool-cases (is_terminal run)) [
          | inl t ↦ simp (e, t) (delete_step-IsSame env m calls)
          | inr t ↦ simp (e, t) (after_stop-IsSame env.stop m (calls ++ (stop_run ∷ [])))
        ]
      ]

pub reconcile_delete-IsSame :
    (env : Env) (m : Model) (now : ℕ) → IsSame (reconcile_delete env m now).model m
unfolding reconcile_delete
reconcile_delete-IsSame env m now = elim (Bool-cases m.has_finalizer) [
  | inr f ↦ simp f refl
  | inl f ↦ elim (Bool-cases (is_draining m.status.phase)) [
    | inl d ↦ simp (f, d) (teardown-IsSame env.get env m now (get_run ∷ []))
    | inr d ↦ elim (Bool-cases env.patch_ok) [
      | inl p ↦
          simp (f, d, p)
            (teardown-IsSame env.get env
              (record m { has_finalizer = true; status = record (m.status) { phase = draining } })
              now (patch_draining ∷ get_run ∷ []))
      | inr p ↦ simp (f, d, p) refl
    ]
  ]
]

-- ===== src/Controller/Reconcile/Errors.antt =====
-- The passes of Reconcile that end in an error.
use squall.Common.{
  ℕ, ◌≡◌, ◌⊎◌, inl, inr, refl, Option, none, some, List, String, [], ◌∷◌, arith, Bool-cases, true,
  false,
}
use squall.Dstack.{Run}
use squall.Api.{ModelSpec, ModelPhase, Model, ModelStatus, schedulable, is_false, cannot_override}
use squall.Api.Conditions.{ConditionOps}
use squall.Controller.Phase.{Observed, unset_time}
use squall.Controller.Observe.{observe}
use squall.Controller.Schedulable.{Checked}
use squall.Controller.Secrets.{apply_env_for}
use squall.Controller.Refusal.{cannot_override_run, other_error, recover_from_override_refusal}
use squall.Controller.World.{
  World, Applied, applied, apply_failed, Result, finalizer_error, observe_error, env_error,
  apply_error, patch_error, Outcome, Call, apply_run,
}
use squall.Controller.Opening.{decided}
use squall.Controller.Closing.{requeue}
use squall.Controller.Actuation.{after_apply}
use squall.Controller.Reconcile.{request, applying, reconcile, act, finish, live_pass, after_answer}
use squall.Controller.Reconcile.Steps.{act-applying, act-idle, reconcile-live}

abbrev pub IsError : Result → Type 0
IsError finalizer_error = Unit
IsError observe_error = Unit
IsError env_error = Unit
IsError apply_error = Unit
IsError patch_error = Unit
IsError _ = ⊥

-- The status with the refusal on record: the Schedulable condition is False for CannotOverride.
abbrev pub refusal_noted : ConditionOps → ℕ → ModelStatus → ModelStatus
refusal_noted meta wall status = record status {
  conditions = meta.set wall status.conditions (record {
    type = schedulable;
    status = is_false;
    reason = cannot_override;
    message = "";
    last_transition_time = 0;
  });
}

-- dstack refused to override the run, and the status that this pass had come to before the Apply was
-- written with the refusal on it, and nothing else of the Model.
abbrev pub IsRecorded : ConditionOps → World → Model → Checked → Outcome → Type 0
IsRecorded meta w m c o =
    (w.apply ≡ apply_failed cannot_override_run)
    × (w.patch_ok ≡ true)
    × (o.result ≡ apply_error)
    × (o.model ≡ record m { status = refusal_noted meta w.wall c.status })

-- The Model is as it was, and no refusal could be put on record.
abbrev pub IsUntouched : World → Model → Outcome → Type 0
IsUntouched w m o =
    (o.model ≡ m)
    × (o.result ≡ apply_error → w.apply ≡ apply_failed cannot_override_run → w.patch_ok ≡ false)

KeepsModel : ConditionOps → World → Model → Checked → Outcome → Type 0
KeepsModel meta w m c o = IsError o.result → IsUntouched w m o ⊎ IsRecorded meta w m c o

requeue-no_error :
    (w : World) (spec : ModelSpec) (run : Option Run) (phase : ModelPhase)
    → IsError (requeue w spec run phase)
    → ⊥
requeue-no_error w spec run phase h = ground (arith, h)

finish-KeepsModel :
    (meta : ConditionOps) (w : World) (m : Model) (observed : Observed) (c : Checked)
    (status : ModelStatus) (now : ℕ) (calls : List Call)
    → KeepsModel meta w m c (finish meta w m observed c status now calls)
unfolding finish KeepsModel
finish-KeepsModel meta w m observed c status now calls = elim (Bool-cases w.patch_ok) [
  | inl e ↦ rw (e, finish) (λ h. absurd (requeue-no_error w m.spec observed.run c.phase h))
  | inr e ↦ rw (e, finish) (λ h. inl (refl, λ r. ground (arith, r)))
]

after_answer-KeepsModel :
    (meta : ConditionOps) (w : World) (m : Model) (observed : Observed) (c : Checked) (now : ℕ)
    (calls : List Call) (a : Applied)
    → w.apply ≡ a
    → KeepsModel meta w m c (after_answer meta w m observed c now calls a)
unfolding after_answer recover_from_override_refusal KeepsModel
after_answer-KeepsModel meta w m observed c now calls (applied run) e =
    finish-KeepsModel meta w m observed c (after_apply meta w.wall c.status c.action run now) now
      calls
after_answer-KeepsModel meta w m observed c now calls (apply_failed other_error) e =
    λ h. inl (refl, λ r a. ground (arith, e, a))
after_answer-KeepsModel meta w m observed c now calls (apply_failed cannot_override_run) e =
    elim (Bool-cases w.patch_ok) [
      | inl p ↦ rw p (λ h. inr (e, refl, refl, refl))
      | inr p ↦ rw p (λ h. inl (refl, λ r a. refl))
    ]

applying-KeepsModel :
    (meta : ConditionOps) (w : World) (m : Model) (observed : Observed) (c : Checked) (now : ℕ)
    (r : Option (List (String × String) × String))
    → KeepsModel meta w m c (applying meta w m observed c now r)
unfolding applying KeepsModel
applying-KeepsModel meta w m observed c now none = λ h. inl (refl, λ r. ground (arith, r))
applying-KeepsModel meta w m observed c now (some (env, key)) =
    after_answer-KeepsModel meta w m observed c now
      (apply_run (request w.seconds m c.action env key) ∷ []) w.apply refl

act-KeepsModel :
    (meta : ConditionOps) (w : World) (m : Model) (observed : Observed) (c : Checked) (now : ℕ)
    → KeepsModel meta w m c (act meta w m observed c now)
act-KeepsModel meta w m observed c now = elim (Bool-cases c.action.apply) [
  | inr e ↦
      rw (act-idle meta w m observed c now e)
        (finish-KeepsModel meta w m observed c c.status now [])
  | inl e ↦
      rw (act-applying meta w m observed c now e)
        (applying-KeepsModel meta w m observed c now (apply_env_for w.secrets w.keys m c.action))
]

-- What a pass over a Model that is not being deleted leaves when it ends in an error.
Fails : ConditionOps → World → Model → ℕ → Outcome → Type 0
Fails meta w m now o =
    IsError o.result
    → IsUntouched w m o
      ⊎ ((observed : Observed) × (observe w.get w.activity m.spec now ≡ some observed)
          × IsRecorded meta w m (decided meta w m observed now) o)

live_pass-Fails :
    (meta : ConditionOps) (w : World) (m : Model) (now : ℕ) (o : Option Observed)
    → observe w.get w.activity m.spec now ≡ o
    → Fails meta w m now (live_pass meta w m now o)
unfolding live_pass Fails KeepsModel
live_pass-Fails meta w m now none e = λ h. inl (refl, λ r. ground (arith, r))
live_pass-Fails meta w m now (some observed) e = λ h.
    elim (act-KeepsModel meta w m observed (decided meta w m observed now) now h) [
      | inl k ↦ inl k
      | inr r ↦ inr (observed, e, r)
    ]

-- A pass over a Model that is not being deleted and that ends in an error leaves the Model as it was,
-- unless dstack refused to override the run and the status could be written: then exactly the status
-- that this pass had come to before the Apply is written, with that refusal on record.
pub reconcile_fails :
    (meta : ConditionOps) (w : World) (m : Model) (now : ℕ)
    → IsError (reconcile meta w m now).result
    → IsUntouched w m (reconcile meta w m now)
      ⊎ ((observed : Observed) × (observe w.get w.activity m.spec now ≡ some observed)
          × IsRecorded meta w m (decided meta w m observed now) (reconcile meta w m now))
unfolding reconcile Fails
reconcile_fails meta w m now = elim (Bool-cases (unset_time m.deletion_timestamp)) [
  | inr e ↦ rw (e, reconcile) (λ h. absurd h)
  | inl e ↦ elim (Bool-cases m.has_finalizer) [
    | inl f ↦
        rw (reconcile-live meta w m now e f)
          (live_pass-Fails meta w m now (observe w.get w.activity m.spec now) refl)
    | inr f ↦ elim (Bool-cases w.update_ok) [
      | inl u ↦ simp (e, f, u, reconcile) (λ h. absurd h)
      | inr u ↦ simp (e, f, u, reconcile) (λ h. inl (refl, λ r. ground (arith, r)))
    ]
  ]
]

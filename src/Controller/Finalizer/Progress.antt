-- ===== src/Controller/Finalizer/Progress.antt =====
-- Successive passes of the teardown of finalizer.go, past the drain deadline.
use squall.Common.{
  ℕ, ◌≤◌, ◌≡◌, ◌≢◌, ◌⊎◌, inl, inr, ◌∙◌, true, false, List, [], ◌∷◌, arith, sub_time_mono,
  instant_or_zero,
}
use squall.Api.{Model}
use squall.Dstack.{failed, get_failed}
use squall.Controller.Finalizer.{Env, reconcile_delete, past_deadline, drain_timeout_or_default}
use squall.Controller.Finalizer.Safety.{IsGone}

-- Nothing that this pass asks of the API server or dstack fails.
pub record IsResponsive (env : Env) : Type 0 where
  pub patches : env.patch_ok ≡ true
  pub answers : env.get ≢ get_failed
  pub stops : env.stop ≢ failed
  pub deletes : env.delete ≢ failed
  pub updates : env.update_ok ≡ true

-- A pass over the Model as the one before left it.
pub passes : List (Env × ℕ) → Model → Model
passes [] m = m
passes ((env, now) ∷ rest) m = passes rest (reconcile_delete env m now).model

late-later :
    (m : Model) (now later : ℕ)
    → now ≤ later
    → past_deadline m now ≡ true
    → past_deadline m later ≡ true
unfolding past_deadline
late-later m now later h e =
    sub_time_mono now later (instant_or_zero m.deletion_timestamp) (drain_timeout_or_default m.spec)
      h e

-- A responsive pass past the deadline frees the Model, or leaves it as it was but for the phase.
pass-late :
    (env : Env) (m : Model) (now : ℕ)
    → IsResponsive env
    → past_deadline m now ≡ true
    → ((reconcile_delete env m now).model.has_finalizer ≡ false)
      ⊎ (((reconcile_delete env m now).model.spec ≡ m.spec)
          × ((reconcile_delete env m now).model.deletion_timestamp ≡ m.deletion_timestamp))
unfolding reconcile_delete
pass-late env m now r l = ground arith

-- A responsive pass past the deadline that finds the run gone frees the Model.
pass-gone :
    (env : Env) (m : Model) (now : ℕ)
    → IsResponsive env
    → past_deadline m now ≡ true
    → IsGone env.get
    → (reconcile_delete env m now).model.has_finalizer ≡ false
unfolding reconcile_delete
pass-gone env m now r l g = ground arith

same-deadline :
    (m n : Model) (now : ℕ)
    → n.spec ≡ m.spec
    → n.deletion_timestamp ≡ m.deletion_timestamp
    → past_deadline n now ≡ past_deadline m now
unfolding past_deadline
same-deadline m n now e k = cc

pass-freed :
    (env : Env) (m : Model) (now : ℕ)
    → m.has_finalizer ≡ false
    → (reconcile_delete env m now).model.has_finalizer ≡ false
unfolding reconcile_delete
pass-freed env m now h = ground arith

-- Past the drain deadline, whatever the proxies report, two passes in which no call fails free a
-- Model for deletion, provided that dstack calls the run finished or absent by the second.
pub teardown_completes :
    (first second : Env) (m : Model) (now later : ℕ)
    → IsResponsive first
    → IsResponsive second
    → past_deadline m now ≡ true
    → now ≤ later
    → IsGone second.get
    → (passes ((first, now) ∷ (second, later) ∷ []) m).has_finalizer ≡ false
unfolding passes
teardown_completes first second m now later r s l h g =
    let n = (reconcile_delete first m now).model in
    elim (pass-late first m now r l) [
      | inl free ↦ pass-freed second n later free
      | inr same ↦
          pass-gone second n later s
            (same-deadline m n later same.0 same.1 ∙ late-later m now later h l) g
    ]

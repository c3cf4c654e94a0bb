-- ===== src/Controller/Observe/Evidence.antt =====
-- On what evidence a Model is reported Ready, from dstack's answer to the phase.
use squall.Common.{
  ℕ, pos, ◌+◌, ◌≤◌, ◌<◌, ◌≡◌, ◌≢◌, ◌↔◌, ◌⊎◌, Bool, true, false, Option, none, some, arith, Holds,
  max_duration, sub_time-le,
}
use squall.Api.{ModelSpec, ModelStatus, ready}
use squall.Api.Conditions.{ConditionOps}
use squall.Dstack.{Run, is_terminal, GetOutcome, found, get_not_found, get_failed}
use squall.Controller.Phase.{Observed, ActivityEvidence, decide}
use squall.Controller.Phase.Wake.{decide-IsCoherent}
use squall.Controller.Observe.{observe, fresh_success}

-- Complete evidence of a success no longer ago than d.
pub record IsFreshSuccess (d now : ℕ) (ev : ActivityEvidence) : Type 0 where
  pub is_complete : ev.complete ≡ true
  pub succeeded : ev.newest_last_success_at ≢ 0
  pub recent : now ≤ ev.newest_last_success_at + d

fresh_success_iff :
    (activity : Option ActivityEvidence) (now d : ℕ)
    → d < max_duration
    → (fresh_success activity now (pos d) ≡ true) ↔ Holds (IsFreshSuccess d now) activity
unfolding fresh_success
fresh_success_iff none now d h = ground arith
fresh_success_iff (some ev) now d h = ground (arith, sub_time-le now ev.newest_last_success_at d h)

-- The evidence for Ready: a run that dstack has, that is up and not finished, and whose probes are
-- ready or which a proxy forwarded to successfully within the idle timeout.
abbrev pub HasEvidence : GetOutcome → Option ActivityEvidence → ℕ → ℕ → Type 0
HasEvidence (found run) activity d now =
    (is_terminal run ≡ false)
    × (run.replicas ≢ 0)
    × ((run.probes_ready ≡ true) ⊎ Holds (IsFreshSuccess d now) activity)
HasEvidence get_not_found activity d now = ⊥
HasEvidence get_failed activity d now = ⊥

observe-evidence :
    (get : GetOutcome) (activity : Option ActivityEvidence) (spec : ModelSpec) (d now : ℕ)
    (observed : Observed)
    → spec.idle_timeout ≡ pos d
    → d < max_duration
    → observe get activity spec now ≡ some observed
    → observed.ready ≡ true
    → HasEvidence get activity d now
unfolding observe
observe-evidence get_not_found activity spec d now observed k h e r = ground (arith, e, r)
observe-evidence get_failed activity spec d now observed k h e r = ground (arith, e)
observe-evidence (found run) activity spec d now observed k h e r =
    let fresh = fresh_success_iff activity now d h in ground (arith, e, r, k, fresh)

-- For an idle timeout that is not negative and below the greatest int64, the phase that Decide gives on what was observed is
-- Ready only with evidence: dstack has the run, up and not finished, and the run's probes are ready or a
-- proxy forwarded to it successfully within the idle timeout.
pub observe-decide_ready :
    (meta : ConditionOps) (get : GetOutcome) (activity : Option ActivityEvidence)
    (prior : ModelStatus) (spec : ModelSpec) (has_demand : Bool) (d now : ℕ) (observed : Observed)
    → spec.idle_timeout ≡ pos d
    → d < max_duration
    → observe get activity spec now ≡ some observed
    → (decide meta observed prior spec has_demand now).0 ≡ ready
    → HasEvidence get activity d now
observe-decide_ready meta get activity prior spec has_demand d now observed k h e r =
    observe-evidence get activity spec d now observed k h e
      ((decide-IsCoherent meta prior spec has_demand observed now).is_ready r).0

-- A run that dstack lists as finished is never acted on as a run: it is observed as no run at all,
-- with a failure to report.
pub observe_terminal :
    (run : Run) (activity : Option ActivityEvidence) (spec : ModelSpec) (now : ℕ)
    → is_terminal run ≡ true
    → Holds
        (λ o.
          (o.run ≡ none)
          × (o.ready ≡ false)
          × (o.activity ≡ none)
          × Holds
              (λ f. (f.run_id ≡ run.run_id) ⊎ (run.provisioning_failure ≡ some f))
              o.provisioning_failure)
        (observe (found run) activity spec now)
unfolding observe
observe_terminal run activity spec now t = ground (arith, t)

-- ===== src/Controller/Preflight/Remedy.antt =====
-- When the preflight of preflight.go gives a reason against a wake.
use squall.Common.{
  ◌+◌, ◌≤◌, ◌≡◌, ◌≢◌, ◌↔◌, ◌⊎◌, false, Option, none, some, List, [], ◌∷◌, arith, length, All,
}
use squall.Api.{FleetStatus, backend_unavailable}
use squall.Controller.Preflight.{
  yes, no, no_answer, BackendAnswers, backend_step, add_fleet, survey, count_state, is_unconfigured,
  is_unfleeted, preflight, judge,
}

-- dstack answered everything that was asked about a backend.
abbrev pub IsAnswered : BackendAnswers → Type 0
IsAnswered b = (b.configured ≡ no) ⊎ ((b.configured ≡ yes) × (b.has_fleet ≢ no_answer))

-- dstack does not know a backend.
abbrev pub IsUnconfigured : BackendAnswers → Type 0
IsUnconfigured b = b.configured ≡ no

-- No fleet admits a backend, and none could be made for it.
abbrev pub IsUnusable : BackendAnswers → Type 0
IsUnusable b =
    (b.configured ≡ no) ⊎ ((b.configured ≡ yes) × (b.has_fleet ≡ no) × (b.ensured ≡ false))

-- What a survey that ended found.
record IsSurvey (bs : List BackendAnswers) (fs : List FleetStatus) : Type 0 where
  answered : All IsAnswered bs
  unconfigured_le : count_state is_unconfigured fs ≤ length bs
  all_unconfigured : (count_state is_unconfigured fs ≡ length bs) ↔ All IsUnconfigured bs
  unusable_le : count_state is_unfleeted fs + count_state is_unconfigured fs ≤ length bs
  all_unusable :
      (count_state is_unfleeted fs + count_state is_unconfigured fs ≡ length bs) ↔ All IsUnusable bs

abbrev Surveyed : List BackendAnswers → Option (List FleetStatus) → Type 0
Surveyed bs none = ¬ All IsAnswered bs
Surveyed bs (some fs) = IsSurvey bs fs

add_fleet-Surveyed :
    (b : BackendAnswers) (bs : List BackendAnswers) (rest : Option (List FleetStatus))
    → Surveyed bs rest
    → Surveyed (b ∷ bs) (add_fleet (backend_step b.configured b) rest)
unfolding count_state
add_fleet-Surveyed b bs none h = ground (arith, h)
add_fleet-Surveyed b bs (some fs) h = ground (arith, h)

survey-Surveyed : (bs : List BackendAnswers) → Surveyed bs (survey bs)
unfolding survey count_state
survey-Surveyed [] = ground arith
survey-Surveyed (b ∷ bs) = add_fleet-Surveyed b bs (survey bs) (survey-Surveyed bs)

judge_iff :
    (bs : List BackendAnswers) (o : Option (List FleetStatus))
    → Surveyed bs o
    → (((judge bs o).reason ≡ some backend_unavailable)
        ↔ (All IsAnswered bs × All IsUnconfigured bs))
      × (((judge bs o).reason ≢ none) ↔ (All IsAnswered bs × All IsUnusable bs))
unfolding judge
judge_iff bs none h = ground (arith, h)
judge_iff bs (some fs) h = ground (arith, h)

-- For an allowlist that is not empty, the preflight gives a reason why the Model cannot be scheduled exactly
-- if dstack answered everything that was asked and no backend of the allowlist can be used, not even by
-- making a fleet for it; it blames the backends rather than their fleets exactly if dstack answered
-- everything and knows none of them.
pub preflight_iff :
    (b : BackendAnswers) (bs : List BackendAnswers)
    → let v = preflight (b ∷ bs) in
      ((v.reason ≡ some backend_unavailable)
        ↔ (All IsAnswered (b ∷ bs) × All IsUnconfigured (b ∷ bs)))
      × ((v.reason ≢ none) ↔ (All IsAnswered (b ∷ bs) × All IsUnusable (b ∷ bs)))
unfolding preflight
preflight_iff b bs = judge_iff (b ∷ bs) (survey (b ∷ bs)) (survey-Surveyed (b ∷ bs))

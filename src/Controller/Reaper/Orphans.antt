-- ===== src/Controller/Reaper/Orphans.antt =====
-- Which runs a sweep of reaper.go stops.
use squall.Common.{
  ℕ, ℤ, pos, ◌+◌, ◌≤◌, ◌<◌, ◌≡◌, ◌≢◌, ◌↔◌, ◌⊎◌, inl, inr, refl, sym, subst, true, false, Option,
  none, some, String, List, [], ◌∷◌, ◌++◌, arith, contains, eq_iff, Holds, length, All, Elem,
  All-Elem, sub_time-lt, max_duration, ◌||◌,
}
use squall.Api.{Model}
use squall.Dstack.{Run, is_terminal, env_value, Outcome}
use squall.Controller.Ownership.{run_names_for, run_name_for, model_uid_env_key}
use squall.Controller.Ownership.Identity.{run_name_for-owned}
use squall.Controller.Reaper.{
  Sweep, Finding, inspect, owned_names, live_uids, sweep_runs, sweep, swept, SweepResult, act_on,
  is_orphan,
}

-- A run that is provably left over: no Model claims its name, it is not finished, it is at least
-- `grace` old, and it carries the UID of a Model that no longer exists.
pub record IsOrphan (models : List Model) (grace now : ℕ) (run : Run) : Type 0 where
  pub unclaimed : All (λ m. contains run.name (run_names_for m) ≡ false) models
  pub alive : is_terminal run ≡ false
  pub old : run.submitted_at + grace ≤ now
  pub marked : env_value model_uid_env_key run.env ≢ ""
  pub abandoned : All (λ m. m.uid ≢ env_value model_uid_env_key run.env) models

contains-append :
    (k : String) (xs ys : List String) → contains k (xs ++ ys) ≡ (contains k xs || contains k ys)
contains-append k [] ys = refl
contains-append k (x ∷ xs) ys = ground (arith, contains-append k xs ys)

owned_names_iff :
    (k : String) (models : List Model)
    → (contains k (owned_names models) ≡ false)
      ↔ All (λ m. contains k (run_names_for m) ≡ false) models
unfolding owned_names
owned_names_iff k [] = ground arith
owned_names_iff k (m ∷ models) =
    ground
      (arith, owned_names_iff k models, contains-append k (run_names_for m) (owned_names models))

live_uids_iff :
    (k : String) (models : List Model)
    → (contains k (live_uids models) ≡ false) ↔ All (λ m. m.uid ≢ k) models
unfolding live_uids
live_uids_iff k [] = ground arith
live_uids_iff k (m ∷ models) = ground (arith, live_uids_iff k models, eq_iff m.uid k)

inspect-IsOrphan_iff :
    (models : List Model) (grace now : ℕ) (run : Run)
    → 0 < grace
    → grace ≤ max_duration
    → (inspect (owned_names models) (live_uids models) (pos grace) now run ≡ is_orphan)
      ↔ IsOrphan models grace now run
unfolding inspect
inspect-IsOrphan_iff models grace now run p h = ground (
  arith,
  owned_names_iff run.name models,
  live_uids_iff (env_value model_uid_env_key run.env) models,
  sub_time-lt now run.submitted_at grace h p,
  eq_iff (env_value model_uid_env_key run.env) "",
)

stopped-act_on :
    (f : Finding) (run : Run) (stop : Run → Outcome) (s : Sweep) (r : Run)
    → Elem r (act_on f run stop s).stopped ↔ (((r ≡ run) × (f ≡ is_orphan)) ⊎ Elem r s.stopped)
stopped-act_on f run stop s r = ground arith

sweep_runs-stopped :
    (models : List Model) (grace now : ℕ) (stop : Run → Outcome) (runs : List Run) (r : Run)
    → 0 < grace
    → grace ≤ max_duration
    → Elem r (sweep_runs (owned_names models) (live_uids models) (pos grace) now stop runs).stopped
      ↔ (Elem r runs × IsOrphan models grace now r)
unfolding sweep_runs
sweep_runs-stopped models grace now stop [] r p h = ground arith
sweep_runs-stopped models grace now stop (run ∷ runs) r p h =
    let rest = sweep_runs-stopped models grace now stop runs r p h in
    let orphan = inspect-IsOrphan_iff models grace now run p h in
    let acted =
      stopped-act_on (inspect (owned_names models) (live_uids models) (pos grace) now run) run stop
        (sweep_runs (owned_names models) (live_uids models) (pos grace) now stop runs) r in
    (
      λ e. elim (acted.0 e) [
        | inl (q, o) ↦ (inl q, subst (IsOrphan models grace now) (sym q) (orphan.0 o))
        | inr t ↦ let u = rest.0 t in (inr (u.0), u.1)
      ],
      λ k. elim (k.0) [
        | inl q ↦ acted.1 (inl (q, orphan.1 (subst (IsOrphan models grace now) q k.1)))
        | inr t ↦ acted.1 (inr (rest.1 (t, k.1)))
      ],
    )

-- The runs that a sweep asked dstack to stop.
abbrev pub stops : SweepResult → List Run
stops (swept s) = s.stopped
stops _ = []

-- A sweep stops a run exactly if both lists could be read, dstack reports the run, and it is provably
-- left over: on a partial view it stops nothing, and no orphan is passed over for another's failure.
pub sweep_stops_iff :
    (models : Option (List Model)) (runs : Option (List Run)) (grace now : ℕ) (stop : Run → Outcome)
    (r : Run)
    → 0 < grace
    → grace ≤ max_duration
    → Elem r (stops (sweep models runs (pos grace) now stop))
      ↔ Holds (λ ms. Holds (λ rs. Elem r rs × IsOrphan ms grace now r) runs) models
unfolding sweep
sweep_stops_iff none runs grace now stop r p h = ground arith
sweep_stops_iff (some ms) none grace now stop r p h = ground arith
sweep_stops_iff (some ms) (some rs) grace now stop r p h =
    ground (arith, sweep_runs-stopped ms grace now stop rs r)

sweep_runs-counts :
    (owned uids : List String) (grace : ℤ) (now : ℕ) (stop : Run → Outcome) (runs : List Run)
    → let s = sweep_runs owned uids grace now stop runs in s.reaped + s.errors ≡ length s.stopped
unfolding sweep_runs
sweep_runs-counts owned uids grace now stop [] = refl
sweep_runs-counts owned uids grace now stop (run ∷ runs) =
    ground (arith, sweep_runs-counts owned uids grace now stop runs)

-- No run of a Model in the list is ever stopped, neither the one filed under its name nor one that
-- carries its UID.
sweep_spares_models :
    (models : List Model) (runs : Option (List Run)) (grace now : ℕ) (stop : Run → Outcome)
    (r : Run) (m : Model)
    → 0 < grace
    → grace ≤ max_duration
    → Elem m models
    → ((r.name ≡ run_name_for m) ⊎ (env_value model_uid_env_key r.env ≡ m.uid))
    → ¬ Elem r (stops (sweep (some models) runs (pos grace) now stop))
sweep_spares_models models none grace now stop r m p h i o e =
    (sweep_stops_iff (some models) none grace now stop r p h).0 e
sweep_spares_models models (some rs) grace now stop r m p h i (inl q) e =
    let k = (sweep_stops_iff (some models) (some rs) grace now stop r p h).0 e in
    let miss = All-Elem _ models m k.1.unclaimed i in
    cc (subst (λ n. contains n (run_names_for m) ≡ true) (sym q) (run_name_for-owned m), miss)
sweep_spares_models models (some rs) grace now stop r m p h i (inr q) e =
    let k = (sweep_stops_iff (some models) (some rs) grace now stop r p h).0 e in
    All-Elem _ models m k.1.abandoned i (sym q)

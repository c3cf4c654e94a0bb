-- ===== src/Proxy/Demand.antt =====
-- The DemandCoalescer of internal/proxy/demand.go. The lock of a model's state is held across the
-- cooldown test and the patch, so one Signal is one step. The patcher is outside this file: `ok` is
-- whether PatchDemand succeeds. Histories are newest first. The nil receiver is left out.
pub mod Cooldown
use squall.Common.{
  ℕ, ℤ, Bool, true, false, not, ◌&&◌, Option, none, some, String, List, [], ◌∷◌, if◌then◌else◌,
  lookup, insert, lt_dur, sub_time, str_eq,
}

pub record DemandState : Type 0 where
  pub last_success : ℕ
  pub ever_patched : Bool

abbrev pub state_or_new : Option DemandState → DemandState
state_or_new none = record { last_success = 0; ever_patched = false }
state_or_new (some s) = s

-- The condition of the early return.
abbrev pub is_cooling : DemandState → ℤ → ℕ → Bool
is_cooling s cooldown now = s.ever_patched && lt_dur (sub_time now s.last_success) cooldown

-- What a Signal did.
pub data Signalled : Type 0 where
  coalesced patch_failed patched : Signalled

-- Signal's effect on the state of its model.
signal_state : ℤ → ℕ → Bool → DemandState → DemandState × Signalled
signal_state cooldown now ok s =
    if is_cooling s cooldown now
    then (s, coalesced)
    else if not ok
    then (s, patch_failed)
    else (record { last_success = now; ever_patched = true }, patched)

-- Signal, with stateFor, which leaves an entry for the model.
unfoldable pub signal :
    ℤ → String → ℕ → Bool → List (String × DemandState) → List (String × DemandState) × Signalled
unfolding signal_state
signal cooldown model now ok state =
    let (s, did) = signal_state cooldown now ok (state_or_new (lookup model state)) in
    (insert model s state, did)

pub record Call : Type 0 where
  pub model : String
  pub at : ℕ
  pub ok : Bool

-- The state after a history.
unfoldable pub after : ℤ → List Call → List (String × DemandState)
after cooldown [] = []
after cooldown (c ∷ cs) = (signal cooldown c.model c.at c.ok (after cooldown cs)).0

abbrev note_patch : Signalled → ℕ → List ℕ → List ℕ
note_patch patched now ts = now ∷ ts
note_patch _ now ts = ts

-- The instants at which a model's demand annotation was patched.
unfoldable pub patches : ℤ → String → List Call → List ℕ
unfolding after
patches cooldown k [] = []
patches cooldown k (c ∷ cs) =
    let rest = patches cooldown k cs in
    if str_eq c.model k
    then note_patch (signal cooldown c.model c.at c.ok (after cooldown cs)).1 c.at rest
    else rest

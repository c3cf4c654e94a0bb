-- ===== src/Proxy/Demand/Cooldown.antt =====
-- How often Signal of demand.go patches a model's demand.
use squall.Common.{
  ℕ, ℤ, ◌≡◌, ◌↔◌, inl, inr, refl, Bool, true, false, Option, none, some, String, List, [], ◌∷◌,
  arith, str_eq, eq_iff, if◌then◌else◌, lookup, insert, lookup-insert, lt_dur, sub_time, Bool-cases,
}
use squall.Proxy.Demand.{
  DemandState, state_or_new, signal, signal_state, Call, after, patches, coalesced, patched,
  note_patch,
}

abbrev newest : List ℕ → Option ℕ
newest [] = none
newest (t ∷ ts) = some t

-- A state that remembers the newest of these instants.
abbrev Remembers : DemandState → List ℕ → Type 0
Remembers s [] = s.ever_patched ≡ false
Remembers s (t ∷ ts) = (s.ever_patched ≡ true) × (s.last_success ≡ t)

state-insert :
    (model k : String) (s : DemandState) (ms : List (String × DemandState))
    → state_or_new (lookup k (insert model s ms))
      ≡ (if str_eq model k then s else state_or_new (lookup k ms))
state-insert model k s ms = rw (lookup-insert model k s ms) (ground arith)

-- Instants, newest first, each at least a cooldown after the one before.
pub Spaced : ℤ → List ℕ → Type 0
Spaced cooldown [] = Unit
Spaced cooldown (t ∷ []) = Unit
Spaced cooldown (t ∷ u ∷ ts) = (lt_dur (sub_time t u) cooldown ≡ false) × Spaced cooldown (u ∷ ts)

signal-Remembers :
    (cooldown : ℤ) (now : ℕ) (ok : Bool) (s : DemandState) (ts : List ℕ)
    → Remembers s ts
    → Spaced cooldown ts
    → let (s', did) = signal_state cooldown now ok s in
      Remembers s' (note_patch did now ts) × Spaced cooldown (note_patch did now ts)
unfolding signal_state Spaced
signal-Remembers cooldown now ok s [] h p = ground arith
signal-Remembers cooldown now ok s (t ∷ ts) h p = ground arith

Kept : ℤ → String → List Call → Type 0
Kept cooldown k cs =
    Remembers (state_or_new (lookup k (after cooldown cs))) (patches cooldown k cs)
    × Spaced cooldown (patches cooldown k cs)

after-Kept : (cooldown : ℤ) (k : String) (cs : List Call) → Kept cooldown k cs
unfolding Kept after patches signal Spaced
after-Kept cooldown k [] = (refl, tt)
after-Kept cooldown k (c ∷ cs) =
    let kept = after-Kept cooldown k cs in
    let s = state_or_new (lookup c.model (after cooldown cs)) in
    let ts = patches cooldown k cs in
    elim (Bool-cases (str_eq c.model k)) [
      | inl e ↦
          let same = (eq_iff c.model k).0 e in
          let known : Remembers s ts = rw same kept.0 in
          rw (state-insert c.model k, e) (signal-Remembers cooldown c.at c.ok s ts known kept.1)
      | inr e ↦ rw (state-insert c.model k, e) kept
    ]

-- The newest patch, if there was one, lies less than a cooldown back.
abbrev pub IsRecent : ℤ → ℕ → List ℕ → Type 0
IsRecent cooldown now [] = ⊥
IsRecent cooldown now (t ∷ ts) = lt_dur (sub_time now t) cooldown ≡ true

-- In every history, however many held requests signal and whatever patches fail, two successive
-- patches of a model's demand lie at least a cooldown apart.
pub patches-Spaced :
    (cooldown : ℤ) (k : String) (cs : List Call) → Spaced cooldown (patches cooldown k cs)
unfolding Kept
patches-Spaced cooldown k cs = (after-Kept cooldown k cs).1

signal_state-outcome :
    (cooldown : ℤ) (now : ℕ) (ok : Bool) (s : DemandState) (ts : List ℕ)
    → Remembers s ts
    → let did = (signal_state cooldown now ok s).1 in
      ((did ≡ coalesced) ↔ IsRecent cooldown now ts)
      × ((did ≡ patched) ↔ ((¬ IsRecent cooldown now ts) × (ok ≡ true)))
unfolding signal_state
signal_state-outcome cooldown now ok s [] h = ground arith
signal_state-outcome cooldown now ok s (t ∷ ts) h = ground arith

-- After any history a Signal is suppressed exactly if the model's newest successful patch is less
-- than a cooldown old, and otherwise patches unless the API server refuses: a failed patch, and a
-- patch of another model, suppress nothing.
pub signal_outcome :
    (cooldown : ℤ) (k : String) (cs : List Call) (now : ℕ) (ok : Bool)
    → let did = (signal cooldown k now ok (after cooldown cs)).1 in
      ((did ≡ coalesced) ↔ IsRecent cooldown now (patches cooldown k cs))
      × ((did ≡ patched) ↔ ((¬ IsRecent cooldown now (patches cooldown k cs)) × (ok ≡ true)))
unfolding signal Kept
signal_outcome cooldown k cs now ok =
    signal_state-outcome cooldown now ok (state_or_new (lookup k (after cooldown cs)))
      (patches cooldown k cs) (after-Kept cooldown k cs).0

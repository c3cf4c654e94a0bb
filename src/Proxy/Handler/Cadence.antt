-- ===== src/Proxy/Handler/Cadence.antt =====
-- The cadence at which a held request refreshes its demand, and the number of held requests.
use squall.Common.{
  ℕ, ◌+◌, ◌*◌, ◌/◌, ◌%◌, ltb, ◌≤◌, ◌<◌, ◌≡◌, ◌⊎◌, inl, inr, refl, pos, true, false, some, String,
  List, arith, lookup, insert, lookup-insert, eq_refl, ◌∙◌, ap, Bool-cases, eq_iff, int64, le_dur,
  ◌≢◌,
}
use squall.Proxy.Handler.{refresh_interval_for, acquire_pending, release_pending, count_of}

-- For a Model with an idle timeout and a handler with a ceiling, the interval is positive, at most the
-- ceiling, and no shorter than half a second unless the ceiling is. From an idle timeout of five seconds on,
-- ten intervals fit into it.
pub refresh_interval_bounds :
    (idle ceiling : ℕ)
    → 0 < idle
    → 0 < ceiling
    → (r : ℕ) × (refresh_interval_for (pos idle) (pos ceiling) ≡ pos r)
      × (0 < r)
      × (r ≤ ceiling)
      × ((500000000 ≤ r) ⊎ (r ≡ ceiling))
      × (5000000000 ≤ idle → r * 10 ≤ idle)
unfolding refresh_interval_for
refresh_interval_bounds idle ceiling p q = elim (Bool-cases (ltb (idle / 10) 500000000)) [
  | inl f ↦ elim (Bool-cases (ltb ceiling 500000000)) [
    | inl c ↦ (ceiling, ground (arith, p, q, f, c), q, ground arith, inr refl, ground (arith, f, c))
    | inr c ↦ (
      500000000,
      ground (arith, p, q, f, c),
      ground arith,
      ground (arith, c),
      inl (ground arith),
      ground arith,
    )
  ]
  | inr f ↦ elim (Bool-cases (ltb ceiling (idle / 10))) [
    | inl c ↦ (ceiling, ground (arith, p, q, f, c), q, ground arith, inr refl, ground (arith, f, c))
    | inr c ↦ (
      idle / 10,
      ground (arith, p, q, f, c),
      ground (arith, f),
      ground (arith, c),
      inl (ground (arith, f)),
      ground arith,
    )
  ]
]

bounded : (max : ℕ) → 0 < max → le_dur (pos max) (pos 0) ≡ false
bounded max p = ground (arith, p)

acquire_room :
    (max n : ℕ) (model : String) (pending : List (String × ℕ))
    → 0 < max
    → max < 9223372036854775808
    → count_of (lookup model pending) ≡ n
    → n < max
    → acquire_pending (pos max) model pending ≡ (true, insert model (n + 1) pending)
unfolding acquire_pending
acquire_room max n model pending p b e l =
    let free : le_dur (pos max) (int64 n) ≡ false = ground (arith, b, l) in
    let kept : (n + 1) % 18446744073709551616 ≡ n + 1 = omega (arith, b, l) in
    simp (e, bounded max p, free, kept)

acquire_full :
    (max : ℕ) (model : String) (pending : List (String × ℕ))
    → 0 < max
    → max < 9223372036854775808
    → count_of (lookup model pending) ≡ max
    → acquire_pending (pos max) model pending ≡ (false, pending)
unfolding acquire_pending
acquire_full max model pending p b e =
    let full : le_dur (pos max) (int64 max) ≡ true = ground (arith, b) in
    simp (e, bounded max p, full)

count-insert :
    (model : String) (n : ℕ) (pending : List (String × ℕ))
    → count_of (lookup model (insert model n pending)) ≡ n
count-insert model n pending =
    let here : lookup model (insert model n pending) ≡ some n =
      ground (arith, lookup-insert model model n pending, eq_refl model) in
    ap count_of here

release_room :
    (max n : ℕ) (model : String) (pending : List (String × ℕ))
    → 0 < max
    → n < 9223372036854775808
    → count_of (lookup model pending) ≡ n + 1
    → count_of (lookup model (release_pending (pos max) model pending)) ≡ n
unfolding release_pending
release_room max n model pending p b e =
    let m = (count_of (lookup model pending) + 18446744073709551615) % 18446744073709551616 in
    let back : m ≡ n = ground (arith, e, b) in
    simp (bounded max p) (count-insert model m pending ∙ back)

-- While fewer than `max` holds of a model are counted, one more is granted and counted, and its release
-- takes the count back; at `max` it is refused, and the counts stay. No other model's count changes.
pub release-acquire :
    (max n : ℕ) (model : String) (pending : List (String × ℕ))
    → 0 < max
    → max < 9223372036854775808
    → count_of (lookup model pending) ≡ n
    → n ≤ max
    → let (granted, held) = acquire_pending (pos max) model pending in
      ((n < max)
        × (granted ≡ true)
        × (count_of (lookup model held) ≡ n + 1)
        × (count_of (lookup model (release_pending (pos max) model held)) ≡ n)
        × ((other : String) → other ≢ model → lookup other held ≡ lookup other pending))
      ⊎ ((n ≡ max) × (granted ≡ false) × (held ≡ pending))
release-acquire max n model pending p b e l = elim (Bool-cases (ltb n max)) [
  | inl c ↦
      let below : n < max = ground (arith, c) in
      rw (acquire_room max n model pending p b e below) (
        inl (
          below,
          refl,
          count-insert model (n + 1) pending,
          release_room max n model (insert model (n + 1) pending) p (omega (arith, below, b))
              (count-insert model (n + 1) pending),
          λ other d.
              lookup-insert model other (n + 1) pending ∙ ground (arith, eq_iff model other, d),
        ))
  | inr c ↦
      let full : n ≡ max = ground (arith, c, l) in
      rw (acquire_full max model pending p b (e ∙ full)) (inr (full, refl, refl))
]

-- ===== src/Proxy/Tracker/Counts.antt =====
-- What a replica's report says of a model, in terms of the history of calls.
use squall.Common.{
  ℕ, pos, suc, ◌+◌, ◌%◌, ◌<◌, ◌≡◌, ◌⊎◌, inl, inr, refl, ◌∙◌, Option, none, some, String, List, [],
  ◌∷◌, arith, str_eq, eq_iff, if◌then◌else◌, lookup, insert, lookup-insert, Option-cases, Holds,
}
use squall.Proxy.Tracker.{
  ActivityTracker, ModelCounters, Event, begun, ended, succeeded, failed, after, report,
  counters_of, counters_or_new, find_pending, close_pending, begin, finish, finish_for, success,
  failure, apply,
}

-- The requests for a model that were begun and not finished.
unfoldable pub pending_count : String → List (ℕ × String) → ℕ
pending_count k [] = 0
pending_count k ((i, model) ∷ rest) =
    let n = pending_count k rest in if str_eq model k then suc n else n

pending_count-close :
    (k : String) (n : ℕ) (pending : List (ℕ × String)) (model : String)
    → find_pending n pending ≡ some model
    → pending_count k pending
      ≡ (if str_eq model k then 1 else 0) + pending_count k (close_pending n pending)
unfolding pending_count
pending_count-close k n [] model e = cc
pending_count-close k n ((i, m) ∷ pending) model e =
    ground (arith, pending_count-close k n pending model, eq_iff m k, eq_iff model k)

abbrev pub Counted : ActivityTracker → String → Type 0
Counted t k = (counters_of t k).in_flight ≡ pending_count k t.pending % 18446744073709551616

counters-insert :
    (model k : String) (c : ModelCounters) (ms : List (String × ModelCounters))
    → counters_or_new (lookup k (insert model c ms))
      ≡ (if str_eq model k then c else counters_or_new (lookup k ms))
counters-insert model k c ms = rw (lookup-insert model k c ms) (ground arith)

finish_for-Counted :
    (o : Option String) (n now : ℕ) (t : ActivityTracker) (k : String)
    → find_pending n t.pending ≡ o
    → Counted t k
    → Counted (finish_for o n now t) k
finish_for-Counted none n now t k e h = h
finish_for-Counted (some model) n now t k e h =
    let count = pending_count-close k n t.pending model e in
    rw (counters-insert model k) (ground (arith, count, h, eq_iff model k))

apply-Counted : (e : Event) (t : ActivityTracker) (k : String) → Counted t k → Counted (apply e t) k
unfolding pending_count begin finish success failure
apply-Counted (begun model now) t k h =
    rw (counters-insert model k) (ground (arith, h, eq_iff model k))
apply-Counted (ended n now) t k h = finish_for-Counted (find_pending n t.pending) n now t k refl h
apply-Counted (succeeded model now) t k h =
    rw (counters-insert model k) (ground (arith, h, eq_iff model k))
apply-Counted (failed model) t k h =
    rw (counters-insert model k) (ground (arith, h, eq_iff model k))

pub after-Counted : (es : List Event) (k : String) → Counted (after es) k
unfolding after pending_count
after-Counted [] k = refl
after-Counted (e ∷ es) k = apply-Counted e (after es) k (after-Counted es k)

-- While fewer than 2^63 requests are in flight, a model's report counts exactly the requests that
-- were begun and whose Done has not run, however often each Done was called; and a model without an
-- entry has none.
pub report-in_flight :
    (es : List Event) (k : String)
    → let n = pending_count k (after es).pending in
      n < 9223372036854775808
      → ((report (after es) k ≡ none) × (n ≡ 0))
        ⊎ Holds (λ a. a.in_flight ≡ pos n) (report (after es) k)
unfolding report
report-in_flight es k h =
    let counted = after-Counted es k in
    elim (Option-cases (lookup k (after es).models)) [
      | inl e ↦ let c = rw e at counted in rw e (inl (refl, ground (arith, c, h)))
      | inr (c, e) ↦ let c' = rw e at counted in rw e (inr (ground (arith, c', h)))
    ]

-- The failures since a model's newest success, in a history.
unfoldable pub failures_in : String → List Event → ℕ
failures_in k [] = 0
failures_in k (succeeded model now ∷ es) =
    let n = failures_in k es in if str_eq model k then 0 else n
failures_in k (failed model ∷ es) = let n = failures_in k es in if str_eq model k then suc n else n
failures_in k (begun model now ∷ es) = failures_in k es
failures_in k (ended n now ∷ es) = failures_in k es

finish_for-failures :
    (o : Option String) (n now : ℕ) (t : ActivityTracker) (k : String)
    → (counters_of (finish_for o n now t) k).failures_since_success
      ≡ (counters_of t k).failures_since_success
finish_for-failures none n now t k = refl
finish_for-failures (some model) n now t k =
    rw (counters-insert model k) (ground (arith, eq_iff model k))

after-failures :
    (es : List Event) (k : String)
    → (counters_of (after es) k).failures_since_success ≡ failures_in k es % 18446744073709551616
unfolding after failures_in begin finish success failure
after-failures [] k = refl
after-failures (begun model now ∷ es) k =
    rw (counters-insert model k) (ground (arith, after-failures es k, eq_iff model k))
after-failures (ended n now ∷ es) k =
    finish_for-failures (find_pending n (after es).pending) n now (after es) k ∙ after-failures es k
after-failures (succeeded model now ∷ es) k =
    rw (counters-insert model k) (ground (arith, after-failures es k, eq_iff model k))
after-failures (failed model ∷ es) k =
    rw (counters-insert model k) (ground (arith, after-failures es k, eq_iff model k))

-- A model's entry counts the failures since its newest success, below 2^63 of them, and a model
-- without an entry has had none.
pub report-failures :
    (es : List Event) (k : String)
    → failures_in k es < 9223372036854775808
    → ((report (after es) k ≡ none) × (failures_in k es ≡ 0))
      ⊎ Holds (λ a. a.failures_since_success ≡ pos (failures_in k es)) (report (after es) k)
unfolding report
report-failures es k h =
    let counted = after-failures es k in
    elim (Option-cases (lookup k (after es).models)) [
      | inl e ↦ let c = rw e at counted in rw e (inl (refl, ground (arith, c, h)))
      | inr (c, e) ↦ let c' = rw e at counted in rw e (inr (ground (arith, c', h)))
    ]

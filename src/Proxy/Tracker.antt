-- ===== src/Proxy/Tracker.antt =====
-- The ActivityTracker of internal/proxy/activity.go. Each method's section under the mutex is one
-- step. `pending` has the Done funcs whose sync.Once has not fired, by a number that Begin draws, with
-- the model whose counters the closure holds: counters are never removed or replaced, so those are
-- the ones in the map. Counts are the bit patterns of a Go int. Histories are newest first.
pub mod Counts
use squall.Common.{
  ℕ, ℤ, suc, ◌+◌, ◌%◌, ◌==◌, Option, none, some, String, List, [], ◌∷◌, if◌then◌else◌, lookup,
  insert, int64,
}
use squall.Api.{ModelActivity}

pub record ModelCounters : Type 0 where
  pub in_flight : ℕ
  pub last_request_at : ℕ
  pub last_success_at : ℕ
  pub failures_since_success : ℕ

pub record ActivityTracker : Type 0 where
  pub models : List (String × ModelCounters)
  pub pending : List (ℕ × String)
  pub drawn : ℕ

abbrev pub new_tracker : ActivityTracker
new_tracker = record { models = []; pending = []; drawn = 0 }

abbrev pub counters_or_new : Option ModelCounters → ModelCounters
counters_or_new none = record {
  in_flight = 0;
  last_request_at = 0;
  last_success_at = 0;
  failures_since_success = 0;
}
counters_or_new (some c) = c

abbrev pub counters_of : ActivityTracker → String → ModelCounters
counters_of t model = counters_or_new (lookup model t.models)

-- `now` is read before the mutex is taken.
unfoldable pub begin : String → ℕ → ActivityTracker → ActivityTracker
begin model now t =
    let c = counters_of t model in
    record {
      models =
          insert model
            (record c {
              in_flight = (c.in_flight + 1) % 18446744073709551616;
              last_request_at = now;
            })
            t.models;
      pending = (t.drawn, model) ∷ t.pending;
      drawn = suc t.drawn;
    }

abbrev pub find_pending : ℕ → List (ℕ × String) → Option String
find_pending n [] = none
find_pending n ((i, model) ∷ rest) = if i == n then some model else find_pending n rest

abbrev pub close_pending : ℕ → List (ℕ × String) → List (ℕ × String)
close_pending n [] = []
close_pending n ((i, model) ∷ rest) = if i == n then rest else (i, model) ∷ close_pending n rest

abbrev finish_for : Option String → ℕ → ℕ → ActivityTracker → ActivityTracker
finish_for none n now t = t
finish_for (some model) n now t =
    let c = counters_of t model in
    record t {
      models =
          insert model
            (record c {
              in_flight = (c.in_flight + 18446744073709551615) % 18446744073709551616;
              last_request_at = now;
            })
            t.models;
      pending = close_pending n t.pending;
    }

-- A call of the Done func number n; `now` is read under the mutex.
unfoldable pub finish : ℕ → ℕ → ActivityTracker → ActivityTracker
finish n now t = finish_for (find_pending n t.pending) n now t

unfoldable pub success : String → ℕ → ActivityTracker → ActivityTracker
success model now t = record t {
  models =
      insert model
        (record (counters_of t model) { last_success_at = now; failures_since_success = 0 })
        t.models;
}

unfoldable pub failure : String → ActivityTracker → ActivityTracker
failure model t =
    let c = counters_of t model in
    record t {
      models =
          insert model
            (record c {
              failures_since_success = (c.failures_since_success + 1) % 18446744073709551616;
            })
            t.models;
    }

abbrev activity_of : ModelCounters → ModelActivity
activity_of c = record {
  in_flight = int64 c.in_flight;
  last_request_at = c.last_request_at;
  last_success_at = c.last_success_at;
  failures_since_success = int64 c.failures_since_success;
}

abbrev reported : Option ModelCounters → Option ModelActivity
reported none = none
reported (some c) = some (activity_of c)

-- The entry of a model in Report().
unfoldable pub report : ActivityTracker → String → Option ModelActivity
report t model = reported (lookup model t.models)

pub data Event : Type 0 where
  begun : String → ℕ → Event
  ended : ℕ → ℕ → Event
  succeeded : String → ℕ → Event
  failed : String → Event

abbrev apply : Event → ActivityTracker → ActivityTracker
unfolding begin finish success failure
apply (begun model now) t = begin model now t
apply (ended n now) t = finish n now t
apply (succeeded model now) t = success model now t
apply (failed model) t = failure model t

unfoldable pub after : List Event → ActivityTracker
unfolding begin finish success failure apply
after [] = new_tracker
after (e ∷ es) = apply e (after es)

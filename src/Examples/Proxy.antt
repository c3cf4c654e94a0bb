-- ===== src/Examples/Proxy.antt =====
-- The theorems on the proxy's decisions, run.
use squall.Common.{
  pos, List, [], ◌∷◌, Holds, arith, ◌≡◌, ◌↔◌, ◌⊎◌, inr, refl, true, false, none, some,
}
use squall.Api.{ready, waking}
use squall.Proxy.Decision.{decide, classify_attempt, attempt_retry, is_dstack_service_not_found}
use squall.Proxy.Decision.Table.{classify-decide_lockstep}
use squall.Proxy.Tracker
use squall.Proxy.Tracker.{Event, begun, ended, succeeded, failed, report}
use squall.Proxy.Tracker.Counts.{pending_count, report-in_flight}
use squall.Proxy.Demand.{Call, patches}
use squall.Proxy.Demand.Cooldown.{Spaced, patches-Spaced}
use squall.Proxy.Hold.{Snapshot, Round, await, notified, ticked}
use squall.Proxy.Hold.Release.{await-Ends}

classify-decide_lockstep_example :
    (classify_attempt (some 404) waking none ≡ attempt_retry)
    ↔ ((decide waking true 0).block ≡ true)
unfolding is_dstack_service_not_found
classify-decide_lockstep_example = classify-decide_lockstep waking 0 none refl

-- Two requests for one model, of which the first is done, twice over.
abbrev history : List Event
history =
    ended 0 5000
    ∷ failed "main/qwen"
    ∷ ended 0 4000
    ∷ begun "main/qwen" 3000
    ∷ succeeded "main/qwen" 2000
    ∷ begun "main/qwen" 1000
    ∷ []

report-in_flight_example :
    ((report (Tracker.after history) "main/qwen" ≡ none)
      × (pending_count "main/qwen" (Tracker.after history).pending ≡ 0))
    ⊎ Holds
        (λ a. a.in_flight ≡ pos (pending_count "main/qwen" (Tracker.after history).pending))
        (report (Tracker.after history) "main/qwen")
unfolding Tracker.after pending_count
report-in_flight_example = report-in_flight history "main/qwen" (omega arith)

-- A patch, a request within the cooldown, and a failed patch for another model.
abbrev calls : List Call
calls =
    record { model = "main/llama"; at = 2000000000; ok = false }
    ∷ record { model = "main/qwen"; at = 2000000000; ok = true }
    ∷ record { model = "main/qwen"; at = 1000000000; ok = true }
    ∷ []

patches-Spaced_example : Spaced (pos 5000000000) (patches (pos 5000000000) "main/qwen" calls)
patches-Spaced_example = patches-Spaced (pos 5000000000) "main/qwen" calls

abbrev waking_snapshot : Snapshot
waking_snapshot = record { phase = waking; has_cr = true }

abbrev tick_round : Round
tick_round = record { over = false; wake = ticked; snapshot = waking_snapshot }

abbrev ready_round : Round
ready_round = record {
  over = false;
  wake = notified;
  snapshot = record { phase = ready; has_cr = true };
}

await-Ends_example :
    await waking_snapshot (tick_round ∷ ready_round ∷ [])
    ≡ some (record { snapshot = ready_round.snapshot; timed_out = false; ticks = 3 })
unfolding decide
await-Ends_example =
    await-Ends waking_snapshot (tick_round ∷ []) [] ready_round false refl
      (record { in_time = refl; woken = inr refl; still = refl }, tt) (inr (refl, refl, refl, refl))

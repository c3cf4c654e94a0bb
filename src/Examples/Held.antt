-- ===== src/Examples/Held.antt =====
-- The theorems on what a request does to the proxy's shared state, run.
use squall.Common.{pos, ◌≡◌, refl, true, false, some, List, [], ◌∷◌, ◌++◌, arith, lookup}
use squall.Api.{asleep, ready}
use squall.Proxy.Decision.{decide}
use squall.Proxy.Tracker.{Event, begun, after, counters_of}
use squall.Proxy.Handler.{
  delivered, retried, context_open, succeeded, outcome_committed, served, World, count_of,
  acquire_pending, serve_http,
}
use squall.Proxy.Request.{events}
use squall.Proxy.Request.Balance.{serve_http-balance}

-- A request that is held for a Model that is asleep, and whose forward commits in the hold.
abbrev held_world : World
held_world = record {
  snapshot = record { phase = asleep; has_cr = true };
  schedulable = true;
  replayable = true;
  tick_commit = some (record { status = 200; streamed = delivered });
  hold_context = context_open;
  held = record { phase = ready; has_cr = true };
  deadline = 0;
  first = retried false;
  rounds = [];
  context = context_open;
}

-- One request of the same model is in progress.
abbrev busy : List Event
busy = begun "qwen" 5 ∷ []

serve_http-balance_example :
    ((counters_of
        (after (events (pos 10) "qwen" (("qwen", 1) ∷ []) 1 7 8 9 held_world ++ busy))
        "qwen").in_flight
      ≡ (counters_of (after busy) "qwen").in_flight)
    × (count_of (lookup "qwen" (serve_http (pos 10) "qwen" (("qwen", 1) ∷ []) held_world).1)
        ≡ count_of (lookup "qwen" (("qwen", 1) ∷ [])))
unfolding serve_http decide acquire_pending after
serve_http-balance_example =
    serve_http-balance (pos 10) "qwen" "qwen" (("qwen", 1) ∷ []) 7 8 9 busy held_world
      (served 200 outcome_committed succeeded) refl (omega arith)

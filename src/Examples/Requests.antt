-- ===== src/Examples/Requests.antt =====
-- The theorems on the sweep, the credentials, the command lines, the fake server and the proxy's cache
-- and handler, run.
use squall.Common.{
  ℕ, ℤ, pos, ◌≤◌, ◌<◌, ◌≡◌, ◌≢◌, ◌↔◌, ◌⊎◌, inl, inr, refl, true, false, none, some, Option, String,
  List, [], ◌∷◌, arith, All, lookup, Text, codes,
}
use squall.Api.{ModelSpec, ready}
use squall.Controller.Engine.{shell_join}
use squall.Controller.Engine.Shell.{shell_words, shell_words-shell_join}
use squall.Controller.Secrets.{Secrets, resolve_env}
use squall.Controller.Secrets.Resolve.{IsResolvable, value_of, resolve_env_iff}
use squall.Controller.Activity.{aggregate_activity}
use squall.Controller.Gather.{Slice, Reply, replied, gather_activity}
use squall.Controller.Gather.Sweep.{AllSayIdle, gather_activity-AllSayIdle}
use squall.Dstack.Errors.{
  Detail, decoded_list, parse_details, Sentinel, error_cannot_override, error_unauthorized,
  error_other, classify_error, mark_of,
}
use squall.Dstack.Errors.Marks.{IsFirst, IsUnmarked, classify_error_cases}
use squall.Dstack.Mock.{Server, ApplyRequest, apply}
use squall.Dstack.Mock.Refines.{view, Sets, apply_refines}
use squall.Proxy.Hold.{Snapshot}
use squall.Proxy.Cache.{Subscriber, new_cache, subscribe}
use squall.Proxy.Cache.Wakeups.{removed, after, holder, touched, holder-after}
use squall.Proxy.Handler.{
  Upstream, delivered, committed, retried, Round, more, context_open, World, retry_forward,
}
use squall.Proxy.Handler.Rounds.{retry_forward-ends}
use squall.Examples.{sample_spec}

-- An argument with a blank and a quote.
abbrev quoted_argv : List Text
quoted_argv = codes "vllm" ∷ codes "it's a name" ∷ []

shell_words-shell_join_example : shell_words (shell_join quoted_argv) ≡ some quoted_argv
shell_words-shell_join_example = shell_words-shell_join quoted_argv

abbrev secret_spec : ModelSpec
secret_spec = record sample_spec {
  env = ("A", "1") ∷ [];
  secret_env = ("HF_TOKEN", record { name = "hf"; key = "token" }) ∷ [];
}

abbrev vault : Secrets
vault = λ n. some (("token", "t") ∷ [])

resolve_env_iff_example :
    ((resolve_env vault secret_spec ≢ none)
      ↔ All (IsResolvable vault secret_spec.env) secret_spec.secret_env)
    × ((res : List (String × String))
        → resolve_env vault secret_spec ≡ some res
        → (k : String) → lookup k res ≡ value_of vault secret_spec.env secret_spec.secret_env k)
resolve_env_iff_example = resolve_env_iff vault secret_spec (tt, tt)

abbrev slices : List Slice
slices =
    record {
      port = none;
      endpoints =
          record { serving = none; addresses = "10.0.0.1" ∷ [] }
          ∷ record { serving = some false; addresses = "10.0.0.2" ∷ [] }
          ∷ [];
    }
    ∷ []

abbrev replies : String → Reply
replies a = replied 200 (some [])

abbrev joined : String → String → String
joined a p = a

gather_activity-AllSayIdle_example : AllSayIdle joined "qwen" replies (some slices)
unfolding gather_activity aggregate_activity
gather_activity-AllSayIdle_example =
    gather_activity-AllSayIdle true joined "qwen" replies (some slices) 3000000000000
      (record {
        complete = true;
        all_idle = true;
        any_data = false;
        newest_last_request_at = 0;
        newest_last_success_at = 0;
        failures_since_success = pos 0;
      })
      refl refl refl

abbrev empty_server : Server
empty_server = record { services = []; fleets = []; seq = 0; probe_delay = 0 }

abbrev first_apply : ApplyRequest
first_apply = record {
  name = "main-qwen";
  replicas = 1;
  current = none;
  force = false;
  fleet_idle_duration = 0;
  idle_duration = some 0;
}

apply_refines_example :
    Sets
      (record { name = "main-qwen"; number = 1 })
      1
      (some 0)
      none
      (view "main-qwen" empty_server)
      (view "main-qwen" (apply first_apply empty_server 5).0)
      (apply first_apply empty_server 5).1
    × ((other : String)
        → other ≢ "main-qwen"
        → view other (apply first_apply empty_server 5).0 ≡ view other empty_server)
apply_refines_example = apply_refines first_apply empty_server 5 refl

abbrev reader : Subscriber
reader = record { channel = 0; name = "qwen"; pending = false }

abbrev no_durations : String → Option ℤ
no_durations s = none

holder-after_example :
    holder 0
      (after no_durations (removed "other" ∷ removed "qwen" ∷ []) (subscribe "qwen" new_cache)).subs
    ≡ some (record reader { pending = touched "qwen" (removed "other" ∷ removed "qwen" ∷ []) })
unfolding subscribe
holder-after_example =
    holder-after no_durations 0 (removed "other" ∷ removed "qwen" ∷ []) (subscribe "qwen" new_cache)
      reader (omega arith) tt refl

abbrev ready_snapshot : Snapshot
ready_snapshot = record { phase = ready; has_cr = true }

abbrev answer : Upstream
answer = record { status = 200; streamed = delivered }

-- A request to a Model that is ready.
abbrev request_world : World
request_world = record {
  snapshot = ready_snapshot;
  schedulable = true;
  replayable = true;
  tick_commit = none;
  hold_context = context_open;
  held = ready_snapshot;
  deadline = 0;
  first = committed answer;
  rounds = [];
  context = context_open;
}

abbrev failing_round : ℕ → Round
failing_round now = record {
  now = now;
  cancelled = false;
  snapshot = ready_snapshot;
  attempt = retried false;
}

retry_forward-ends_example :
    retry_forward 20 false (failing_round 5 ∷ failing_round 15 ∷ failing_round 20 ∷ []) ≢ more
retry_forward-ends_example =
    retry_forward-ends 10 20 5 2 false (failing_round 5 ∷ failing_round 15 ∷ failing_round 20 ∷ [])
      refl (inl (omega arith), (inr (omega arith), (tt, tt))) (omega arith) (omega arith)

-- dstack's answer to a flip that changes more than the replicas.
abbrev refusal : Detail
refusal =
    decoded_list
      (record { msg = "Cannot override active run. Stop the run first."; code = "error" } ∷ [])

abbrev bad_request : ℕ
bad_request = 400

classify_error_cases_example :
    ((200 ≤ bad_request) × (bad_request < 300) × (classify_error bad_request refusal ≡ none))
    ⊎ (((bad_request < 200) ⊎ (300 ≤ bad_request))
        × (((k : Sentinel) × (classify_error bad_request refusal ≡ some k)
              × IsFirst k (parse_details refusal))
            ⊎ (All IsUnmarked (parse_details refusal)
                × ((classify_error bad_request refusal ≡ some error_unauthorized)
                      × ((bad_request ≡ 401) ⊎ (bad_request ≡ 403))
                    ⊎ (classify_error bad_request refusal ≡ some error_other)
                      × (bad_request ≢ 401)
                      × (bad_request ≢ 403)))))
classify_error_cases_example = classify_error_cases bad_request refusal

refusal_classified : classify_error bad_request refusal ≡ some error_cannot_override
unfolding classify_error mark_of
refusal_classified = refl

-- ===== src/Proxy/Handler.antt =====
-- One request at the proxy: ServeHTTP of internal/proxy/handler.go with the functions that it calls
-- there. What the request, the cache, the hold and the replica give comes from outside, as arguments;
-- Await of the hold is in Proxy/Hold. What the request tells the tracker is in
-- Proxy/Request; its demand signals are left out. Left out are headers, bodies, logging and metrics.
pub mod Verdicts
pub mod Cadence
pub mod Rounds
use squall.Common.{
  ℕ, suc, ◌+◌, ◌/◌, ◌%◌, ℤ, pos, negsuc, Bool, true, false, not, ◌&&◌, ◌||◌, Option, none, some,
  String, List, [], ◌∷◌, ◌==◌, ltb, leb, le_dur, lt_dur, int64, if◌then◌else◌, str_eq, lookup,
  insert, trim_space, is_none, pos_part,
}
use squall.Api.{ModelPhase, unset, ready}
use squall.Proxy.Decision.{Action, WaitState, wait_asleep, wait_waking, decide}
use squall.Proxy.Hold.{Snapshot}

-- refreshIntervalFor.
abbrev clamped : ℤ → ℕ → ℤ
clamped ceiling interval =
    let floored = if ltb interval 500000000 then 500000000 else interval in
    if lt_dur (pos 0) ceiling && lt_dur ceiling (pos floored) then ceiling else pos floored

unfoldable pub refresh_interval_for : ℤ → ℤ → ℤ
refresh_interval_for idle_timeout ceiling =
    if le_dur idle_timeout (pos 0) then ceiling else clamped ceiling (pos_part idle_timeout / 10)

-- The holds in progress of each model, in the bits of a Go int.
abbrev pub count_of : Option ℕ → ℕ
count_of none = 0
count_of (some n) = n

-- acquirePending: whether there is room, and the counts then.
unfoldable pub acquire_pending : ℤ → String → List (String × ℕ) → Bool × List (String × ℕ)
acquire_pending max model pending =
    let n = count_of (lookup model pending) in
    if le_dur max (pos 0)
    then (true, pending)
    else if le_dur max (int64 n)
    then (false, pending)
    else (true, insert model ((n + 1) % 18446744073709551616) pending)

-- releasePending.
unfoldable pub release_pending : ℤ → String → List (String × ℕ) → List (String × ℕ)
release_pending max model pending =
    if le_dur max (pos 0)
    then pending
    else insert model
        ((count_of (lookup model pending) + 18446744073709551615) % 18446744073709551616) pending

-- What modelFromRequest reads: no body, a read that fails, or a length and the decoded "model" field,
-- `none` where the JSON does not decode.
pub data Peek : Type 0 where
  no_body unreadable : Peek
  peeked : ℕ → Option String → Peek

abbrev named : Option String → String × ℕ
named none = ("", 400)
named (some model) = if str_eq (trim_space model) "" then ("", 400) else (trim_space model, 0)

-- modelFromRequest: the model, and the error's status or 0.
unfoldable pub model_from_request : Peek → String × ℕ
unfolding trim_space
model_from_request no_body = ("", 400)
model_from_request unreadable = ("", 400)
model_from_request (peeked len model) = if ltb 4194304 len then ("", 413) else named model

-- How the copying of a response to the client ends: delivered, an error of the client's or of the
-- replica's connection, or the request's time limit.
pub data Streamed : Type 0 where
  delivered client_lost upstream_lost ceiling_reached : Streamed

pub record Upstream : Type 0 where
  pub status : ℕ
  pub streamed : Streamed

-- What attemptForward gives; the flag is whether its error is errNoBackendURL.
pub data Attempt : Type 0 where
  retried : Bool → Attempt
  committed : Upstream → Attempt

pub data Kind : Type 0 where
  outcome_committed outcome_wait_contract outcome_immediate outcome_gateway_auth : Kind
  outcome_client_gone outcome_ceiling : Kind

-- What the request tells the activity tracker of the replica.
pub data Evidence : Type 0 where
  no_evidence succeeded failed : Evidence

-- The status that is written, 0 for none.
pub record Served : Type 0 where
  pub status : ℕ
  pub kind : Kind
  pub evidence : Evidence

abbrev pub served : ℕ → Kind → Evidence → Served
served s k e = record { status = s; kind = k; evidence = e }

abbrev verdict : ℕ → Evidence
verdict status = if leb 200 status && ltb status 300 then succeeded else failed

abbrev streamed_as : ℕ → Streamed → Served
streamed_as status delivered = served status outcome_committed (verdict status)
streamed_as status client_lost = served status outcome_committed no_evidence
streamed_as status upstream_lost = served status outcome_committed no_evidence
streamed_as status ceiling_reached = served status outcome_ceiling no_evidence

-- commit.
unfoldable pub commit : Upstream → Served
unfolding decide
commit up =
    if up.status == 403
    then served (decide ready true 403).immediate_status outcome_gateway_auth no_evidence
    else streamed_as up.status up.streamed

-- The state of the request's context.
pub data Context : Type 0 where
  context_open caller_gone over_ceiling : Context

-- One pass of retryForward's loop: the instant at its top, whether the context ended in its wait, the
-- cache's answer after it, and the attempt.
pub record Round : Type 0 where
  pub now : ℕ
  pub cancelled : Bool
  pub snapshot : Snapshot
  pub attempt : Attempt

-- What retryForward gives: the flag of its error, or the response. `more` is a loop that goes on after
-- the given rounds.
pub data Retried : Type 0 where
  more : Retried
  gave_up : Bool → Retried
  got : Upstream → Retried

abbrev pub after_attempt : Attempt → (Bool → Retried) → Retried
after_attempt (committed up) again = got up
after_attempt (retried flag) again = again flag

-- retryForward; `last` is the flag of the last attempt's error.
unfoldable pub retry_forward : ℕ → Bool → List Round → Retried
unfolding decide
retry_forward deadline last [] = more
retry_forward deadline last (r ∷ rs) =
    if leb deadline r.now
    then gave_up last
    else if r.cancelled
    then gave_up false
    else if not ((decide r.snapshot.phase r.snapshot.has_cr 0).immediate_status == 0)
    then gave_up false
    else after_attempt r.attempt (λ flag. retry_forward deadline flag rs)

-- What a forward that did not commit answers.
abbrev pub unserved : Bool → Context → Served
unserved no_backend caller_gone = served 0 outcome_client_gone no_evidence
unserved no_backend over_ceiling = served 503 outcome_ceiling no_evidence
unserved no_backend context_open =
    served 503 outcome_wait_contract (if no_backend then no_evidence else failed)

abbrev after_retry : Retried → Context → Option Served
unfolding commit
after_retry more ctx = none
after_retry (gave_up no_backend) ctx = some (unserved no_backend ctx)
after_retry (got up) ctx = some (commit up)

-- The answers from outside to the request after the cache's first: `entry` is the snapshot and whether
-- the Model is schedulable; `tick_commit` is the response that an attempt during the hold committed to;
-- `held` is what the hold ends with; `first` is the attempt after it.
pub record World : Type 0 where
  pub snapshot : Snapshot
  pub schedulable : Bool
  pub replayable : Bool
  pub tick_commit : Option Upstream
  pub hold_context : Context
  pub held : Snapshot
  pub deadline : ℕ
  pub first : Attempt
  pub rounds : List Round
  pub context : Context

-- The forward; `waited` is whether the request was held.
abbrev forward : World → Bool → Attempt → Option Served
unfolding commit after_retry retry_forward
forward w waited (committed up) = some (commit up)
forward w waited (retried flag) =
    if waited && w.replayable
    then after_retry (retry_forward w.deadline false w.rounds) w.context
    else some (unserved flag w.context)

abbrev dispatch : World → Bool → Action → Option Served
unfolding forward
dispatch w waited action =
    if action.forward
    then forward w waited w.first
    else if not (action.immediate_status == 0)
    then some (served action.immediate_status outcome_immediate no_evidence)
    else some (served 500 outcome_immediate no_evidence)

abbrev pub is_over_ceiling : Context → Bool
is_over_ceiling over_ceiling = true
is_over_ceiling _ = false

-- What follows the hold.
abbrev after_hold : World → Option Upstream → Option Served
unfolding commit dispatch decide
after_hold w (some up) = some (commit up)
after_hold w none =
    if is_over_ceiling w.hold_context
    then some (served 503 outcome_ceiling no_evidence)
    else let action = decide w.held.phase w.held.has_cr 0 in
      if action.block
      then some (served action.deadline_status outcome_wait_contract no_evidence)
      else dispatch w true action

-- ServeHTTP, from the cache's answer on, and the counts of holds after it: a hold is released when the
-- request ends. `none` is a request that goes on after the given rounds.
unfoldable pub serve_http :
    ℤ → String → List (String × ℕ) → World → Option Served × List (String × ℕ)
unfolding after_hold dispatch decide acquire_pending release_pending
serve_http max model pending w =
    let action = decide w.snapshot.phase w.snapshot.has_cr 0 in
    let room = acquire_pending max model pending in
    if action.block && w.snapshot.has_cr && not w.schedulable
    then (some (served 503 outcome_wait_contract no_evidence), pending)
    else if action.block
    then (if room.0
        then (after_hold w w.tick_commit, release_pending max model room.1)
        else (some (served action.deadline_status outcome_wait_contract no_evidence), room.1))
    else (dispatch w false action, pending)

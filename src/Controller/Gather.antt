-- ===== src/Controller/Gather.antt =====
-- The sweep of the proxy replicas: gatherActivity and queryActivity of
-- internal/controller/squall/model_controller.go. What the API server answers to the List of the
-- EndpointSlices and what each replica answers to the query are arguments, as is net.JoinHostPort; a
-- port is the text of its number.
pub mod Sweep
use squall.Common.{
  ℕ, ℤ, pos, Bool, true, false, not, Option, none, some, String, List, [], ◌∷◌, ◌++◌, map, ◌==◌,
  if◌then◌else◌, lookup,
}
use squall.Api.{ModelActivity}
use squall.Controller.Phase.{ActivityEvidence}
use squall.Controller.Activity.{ActivityQuery, aggregate_activity}

-- `serving` is none where the condition is not set.
pub record Endpoint : Type 0 where
  pub serving : Option Bool
  pub addresses : List String

-- The first port of the slice, if it has one.
pub record Slice : Type 0 where
  pub port : Option String
  pub endpoints : List Endpoint

-- A replica's answer: its status and the decoded report, `none` where the body does not decode.
pub data Reply : Type 0 where
  no_reply : Reply
  replied : ℕ → Option (List (String × ModelActivity)) → Reply

-- An ActivityQuery that failed.
abbrev unanswered : String → ActivityQuery
unanswered address = record {
  address = address;
  ok = false;
  no_data = false;
  in_flight = pos 0;
  last_request_at = 0;
  last_success_at = 0;
  failures_since_success = pos 0;
}

abbrev pub of_entry : String → Option ModelActivity → ActivityQuery
of_entry address none = record (unanswered address) { ok = true; no_data = true }
of_entry address (some a) = record (unanswered address) {
  ok = true;
  in_flight = a.in_flight;
  last_request_at = a.last_request_at;
  last_success_at = a.last_success_at;
  failures_since_success = a.failures_since_success;
}

abbrev of_report : String → String → Option (List (String × ModelActivity)) → ActivityQuery
of_report address name none = unanswered address
of_report address name (some models) = of_entry address (lookup name models)

-- queryActivity.
unfoldable pub query_activity : String → String → Reply → ActivityQuery
query_activity address name no_reply = unanswered address
query_activity address name (replied status report) =
    if status == 200 then of_report address name report else unanswered address

abbrev pub is_serving : Option Bool → Bool
is_serving none = true
is_serving (some b) = b

abbrev pub dialled : (String → String → String) → Option String → String → String
dialled join none addr = addr
dialled join (some port) addr = join addr port

abbrev pub endpoint_addresses :
    (String → String → String) → Option String → List Endpoint → List String
endpoint_addresses join port [] = []
endpoint_addresses join port (e ∷ es) =
    let rest = endpoint_addresses join port es in
    if is_serving e.serving then map (dialled join port) e.addresses ++ rest else rest

-- The loop over the slices.
unfoldable pub addresses_of : (String → String → String) → List Slice → List String
addresses_of join [] = []
addresses_of join (s ∷ slices) =
    endpoint_addresses join s.port s.endpoints ++ addresses_of join slices

unfoldable pub queries_of : String → (String → Reply) → List String → List ActivityQuery
unfolding query_activity
queries_of name replies [] = []
queries_of name replies (a ∷ addrs) =
    query_activity a name (replies a) ∷ queries_of name replies addrs

-- gatherActivity; a failed List is `none`.
abbrev sweep :
    (String → String → String)
    → String
    → (String → Reply)
    → ℕ
    → Option (List Slice)
    → ActivityEvidence
unfolding queries_of addresses_of
sweep join name replies now none = aggregate_activity [] [] now
sweep join name replies now (some slices) =
    let addrs = addresses_of join slices in
    aggregate_activity addrs (queries_of name replies addrs) now

unfoldable pub gather_activity :
    Bool
    → (String → String → String)
    → String
    → (String → Reply)
    → Option (List Slice)
    → ℕ
    → Option ActivityEvidence
unfolding sweep
gather_activity configured join name replies slices now =
    if configured then some (sweep join name replies now slices) else none

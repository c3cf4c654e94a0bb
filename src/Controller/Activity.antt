-- ===== src/Controller/Activity.antt =====
-- The idle evidence of internal/controller/squall/activity.go: the replicas that were expected to
-- answer, their answers, and the aggregate. A Go map is an association list; the loop over `want`
-- visits its keys in the order of the list; Activity/Order is about other orders.
pub mod Answers
pub mod Order
pub mod Loop
pub mod Evidence
use squall.Common.{
  ℕ, ℤ, pos, suc, ◌+◌, ◌%◌, Bool, true, false, not, ◌&&◌, ◌||◌, Option, none, some, String, List,
  [], ◌∷◌, ltb, ◌==◌, lt_dur, if◌then◌else◌, length, lookup, insert, contains, int64, pos_part,
  is_zero,
}
use squall.Controller.Phase.{ActivityEvidence}

pub record ActivityQuery : Type 0 where
  pub address : String
  pub ok : Bool
  pub no_data : Bool
  pub in_flight : ℤ
  pub last_request_at : ℕ
  pub last_success_at : ℕ
  pub failures_since_success : ℤ

-- ActivityEvidence{}.
abbrev pub no_evidence : ActivityEvidence
no_evidence = record {
  complete = false;
  all_idle = false;
  any_data = false;
  newest_last_request_at = 0;
  newest_last_success_at = 0;
  failures_since_success = pos 0;
}

-- The keys of `want`: each expected address once.
pub distinct : List String → List String
distinct [] = []
distinct (a ∷ addrs) = let rest = distinct addrs in if contains a rest then rest else a ∷ rest

-- `got`: the queries of wanted addresses; a later one replaces an earlier one.
pub collect :
    List String → List ActivityQuery → List (String × ActivityQuery) → List (String × ActivityQuery)
collect want [] got = got
collect want (q ∷ qs) got =
    collect want qs (if contains q.address want then insert q.address q got else got)

-- The variables of the loop; `failures` is the bit pattern of a Go int.
pub record Tally : Type 0 where
  pub all_idle : Bool
  pub saw_data : Bool
  pub failures : ℕ
  pub newest : ℕ
  pub newest_success : ℕ

abbrev pub later_of : ℕ → ℕ → ℕ
later_of t newest = if ltb newest t then t else newest

-- One round of the loop; `none` is the early return for an ambiguous or missing answer.
pub step : ℕ → Tally → ActivityQuery → Option Tally
step now t q =
    if not q.ok || lt_dur q.in_flight (pos 0) || ltb now q.last_request_at
    then none
    else if q.no_data
    then some t
    else some (record {
      all_idle = if not (is_zero q.in_flight) then false else t.all_idle;
      saw_data = true;
      failures =
          if lt_dur (pos 0) q.failures_since_success
          then (t.failures + pos_part q.failures_since_success) % 18446744073709551616
          else t.failures;
      newest = later_of q.last_request_at t.newest;
      newest_success = later_of q.last_success_at t.newest_success;
    })

-- The zero ActivityQuery, which a Go map gives for a missing key.
abbrev pub zero_query : ActivityQuery
zero_query = record {
  address = "";
  ok = false;
  no_data = false;
  in_flight = pos 0;
  last_request_at = 0;
  last_success_at = 0;
  failures_since_success = pos 0;
}

abbrev pub answer_or_zero : Option ActivityQuery → ActivityQuery
answer_or_zero none = zero_query
answer_or_zero (some q) = q

-- The loop over `want`.
pub visit : List (String × ActivityQuery) → ℕ → Tally → List String → Option Tally
visit got now t [] = some t
visit got now t (a ∷ addrs) = elim (step now t (answer_or_zero (lookup a got))) [
  | none ↦ none
  | some t' ↦ visit got now t' addrs
]

abbrev pub start : Tally
start = record { all_idle = true; saw_data = false; failures = 0; newest = 0; newest_success = 0 }

abbrev pub evidence_of : Option Tally → ActivityEvidence
evidence_of none = no_evidence
evidence_of (some t) =
    if not t.saw_data then record no_evidence { complete = true; all_idle = true } else record {
      complete = true;
      all_idle = t.all_idle;
      any_data = true;
      newest_last_request_at = t.newest;
      newest_last_success_at = t.newest_success;
      failures_since_success = int64 t.failures;
    }

abbrev aggregate_over : List String → List (String × ActivityQuery) → ℕ → ActivityEvidence
aggregate_over want got now =
    if not (length got == length want) then no_evidence else evidence_of (visit got now start want)

unfoldable pub aggregate_activity : List String → List ActivityQuery → ℕ → ActivityEvidence
unfolding distinct collect step visit
aggregate_activity [] queries now = no_evidence
aggregate_activity (a ∷ addrs) queries now =
    aggregate_over (distinct (a ∷ addrs)) (collect (distinct (a ∷ addrs)) queries []) now

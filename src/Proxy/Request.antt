-- ===== src/Proxy/Request.antt =====
-- One request and the state that the proxy's requests share: the calls that ServeHTTP of
-- internal/proxy/handler.go makes of the activity tracker (Begin, its Done, Success and Failure), on the
-- paths that Proxy/Handler has. A Model that the cache does not know is not tracked.
pub mod Balance
use squall.Common.{
  ℕ, suc, ◌+◌, ℤ, Bool, true, false, not, ◌&&◌, ◌||◌, Option, none, some, String, List, [], ◌∷◌,
  ◌++◌, leb, ◌==◌, if◌then◌else◌,
}
use squall.Proxy.Decision.{Action, decide}
use squall.Proxy.Handler.{
  Upstream, Attempt, retried, committed, Evidence, no_evidence, succeeded, failed, Served, Round,
  World, is_over_ceiling, acquire_pending, serve_http,
}
use squall.Proxy.Tracker.{ActivityTracker, Event, begun, ended}
use squall.Proxy.Tracker

abbrev pub evidence_events : String → ℕ → Evidence → List Event
evidence_events model now no_evidence = []
evidence_events model now succeeded = Tracker.succeeded model now ∷ []
evidence_events model now failed = Tracker.failed model ∷ []

abbrev pub answered_events : Bool → String → ℕ → ℕ → ℕ → ℕ → Evidence → List Event
answered_events false model n now at later e = evidence_events model at e
answered_events true model n now at later e =
    ended n later ∷ (evidence_events model at e ++ (begun model now ∷ []))

abbrev pub request_events : Bool → String → ℕ → ℕ → ℕ → ℕ → Option Served → List Event
request_events has_cr model n now at later (some r) =
    answered_events has_cr model n now at later r.evidence
request_events true model n now at later none = begun model now ∷ []
request_events false model n now at later none = []

-- What the request, which Begin gives the number n, tells the tracker, newest first: it begins `now`,
-- records its evidence `at`, and is done `later`. A request that goes on has not called Done.
unfoldable pub events : ℤ → String → List (String × ℕ) → ℕ → ℕ → ℕ → ℕ → World → List Event
events max model pending n now at later w =
    request_events w.snapshot.has_cr model n now at later (serve_http max model pending w).0

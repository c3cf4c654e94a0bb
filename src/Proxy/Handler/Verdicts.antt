-- ===== src/Proxy/Handler/Verdicts.antt =====
-- What a request tells the activity tracker of the replica.
use squall.Common.{
  ℕ, ◌≤◌, ◌<◌, ◌≡◌, ◌≢◌, ◌⊎◌, Bool, true, false, ◌&&◌, Option, none, some, List, [], ◌∷◌,
  if◌then◌else◌,
}
use squall.Proxy.Decision.{decide}
use squall.Proxy.Handler.{
  delivered, Upstream, retried, committed, Evidence, no_evidence, succeeded, failed, Served,
  context_open, Round, Retried, more, gave_up, got, World,
}

abbrev CommittedIn : List Round → Upstream → Type 0
CommittedIn [] up = ⊥
CommittedIn (r ∷ rs) up = (r.attempt ≡ committed up) ⊎ CommittedIn rs up

-- A response that the replica gave to the request.
abbrev pub IsResponse : World → Upstream → Type 0
IsResponse w up = (w.tick_commit ≡ some up) ⊎ (w.first ≡ committed up) ⊎ CommittedIn w.rounds up

-- The loop of retryForward gives up after attempts that got no response, `last` telling whether the
-- attempt before failed for lack of a route: at the deadline if the last attempt did not, when the
-- request's context ends, or when the Model stops being served.
unfoldable pub GivesUp : ℕ → Bool → List Round → Type 0
GivesUp deadline last [] = ⊥
GivesUp deadline last (r ∷ rs) =
    ((deadline ≤ r.now) × (last ≡ false))
    ⊎ ((r.now < deadline)
        × ((r.cancelled ≡ true)
            ⊎ ((decide r.snapshot.phase r.snapshot.has_cr 0).immediate_status ≢ 0)
            ⊎ ((flag : Bool) × (r.attempt ≡ retried flag) × GivesUp deadline flag rs)))

abbrev pub is_held : World → Bool
is_held w = (decide w.snapshot.phase w.snapshot.has_cr 0).block

-- No attempt got a response while the request was open: none in the hold, if it was held, nor the
-- forward after it, nor those of the retries, if it had held and could be sent again; and the last did
-- not fail for lack of a route.
pub record IsUnanswered (w : World) : Type 0 where
  pub still_open : w.context ≡ context_open
  pub in_hold : is_held w ≡ true → w.tick_commit ≡ none
  pub flag : Bool
  pub first : w.first ≡ retried flag
  pub retries :
      if is_held w && w.replayable then GivesUp w.deadline false w.rounds else (flag ≡ false)

-- A success rests on a response with a status of 2xx, delivered to the end; a failure on one with
-- another status, delivered to the end, or on attempts that got none while the request was open.
abbrev pub IsGrounded : World → Evidence → Type 0
IsGrounded w no_evidence = Unit
IsGrounded w succeeded =
    (up : Upstream) × IsResponse w up
    × (up.streamed ≡ delivered)
    × (200 ≤ up.status)
    × (up.status < 300)
IsGrounded w failed =
    IsUnanswered w
    ⊎ ((up : Upstream) × IsResponse w up
        × (up.streamed ≡ delivered)
        × (up.status ≢ 403)
        × ((up.status < 200) ⊎ (300 ≤ up.status)))

abbrev AllGrounded : World → Option Served → Type 0
AllGrounded w none = Unit
AllGrounded w (some r) = IsGrounded w r.evidence

-- What retryForward gives, of rounds that all are the world's.
abbrev AllAfter : World → ℕ → Bool → List Round → Retried → Type 0
AllAfter w deadline last rs (got up) = CommittedIn rs up
AllAfter w deadline last rs (gave_up flag) = flag ≡ false → GivesUp deadline last rs
AllAfter w deadline last rs more = Unit

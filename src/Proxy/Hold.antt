-- ===== src/Proxy/Hold.antt =====
-- Await of internal/proxy/hold.go: the blocking hold of a request. What the select receives and what
-- the cache answers afterwards come from outside, one Round for each pass of the loop; `over` is
-- whether time.Until(deadline) is not positive at its top. A snapshot is a phase and whether the
-- Model exists. `none` is a hold that goes on after the given rounds.
pub mod Release
use squall.Common.{ℕ, suc, Bool, true, false, not, Option, none, some, List, [], ◌∷◌, if◌then◌else◌}
use squall.Api.{ModelPhase}
use squall.Proxy.Decision.{decide}

pub record Snapshot : Type 0 where
  pub phase : ModelPhase
  pub has_cr : Bool

pub data Wake : Type 0 where
  client_gone deadline_passed notified ticked : Wake

pub record Round : Type 0 where
  pub over : Bool
  pub wake : Wake
  pub snapshot : Snapshot

-- The snapshot returned, timedOut, and the number of calls of `tick`.
pub record Held : Type 0 where
  pub snapshot : Snapshot
  pub timed_out : Bool
  pub ticks : ℕ

abbrev pub blocks : Snapshot → Bool
unfolding decide
blocks s = (decide s.phase s.has_cr 0).block

abbrev held : Snapshot → Bool → ℕ → Option Held
held s t n = some (record { snapshot = s; timed_out = t; ticks = n })

abbrev is_final : Wake → Bool
is_final client_gone = true
is_final deadline_passed = true
is_final _ = false

-- The loop, after `ticks` calls of tick.
await_rounds : List Round → ℕ → Option Held
await_rounds [] ticks = none
await_rounds (r ∷ rs) ticks =
    let rest = await_rounds rs (suc ticks) in
    if r.over
    then held r.snapshot true ticks
    else if is_final r.wake
    then held r.snapshot true ticks
    else if not (blocks r.snapshot)
    then held r.snapshot false (suc ticks)
    else rest

-- Await, from the cache's answer before the loop on.
unfoldable pub await : Snapshot → List Round → Option Held
unfolding await_rounds
await first rounds = if not (blocks first) then held first false 1 else await_rounds rounds 1

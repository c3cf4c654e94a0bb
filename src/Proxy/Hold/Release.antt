-- ===== src/Proxy/Hold/Release.antt =====
-- When Await of hold.go lets a held request go.
use squall.Common.{
  ℕ, suc, ◌+◌, ◌≡◌, ◌⊎◌, Bool, true, false, Option, none, some, List, [], ◌∷◌, arith, length, All,
  ◌++◌, if◌then◌else◌,
}
use squall.Proxy.Hold.{
  Snapshot, Round, Held, await, await_rounds, blocks, notified, ticked, is_final,
}

-- A pass of the loop after which the request still waits.
pub record IsWaiting (r : Round) : Type 0 where
  pub in_time : r.over ≡ false
  pub woken : (r.wake ≡ notified) ⊎ (r.wake ≡ ticked)
  pub still : blocks r.snapshot ≡ true

-- A pass that ends the hold, and its timedOut.
abbrev pub Ends : Round → Bool → Type 0
Ends r timed_out =
    ((timed_out ≡ true) × ((r.over ≡ true) ⊎ (is_final r.wake ≡ true)))
    ⊎ ((timed_out ≡ false)
        × (r.over ≡ false)
        × (is_final r.wake ≡ false)
        × (blocks r.snapshot ≡ false))

await_rounds-Ends :
    (before after : List Round) (r : Round) (timed_out : Bool) (n : ℕ)
    → All IsWaiting before
    → Ends r timed_out
    → await_rounds (before ++ (r ∷ after)) n
      ≡ some (record {
        snapshot = r.snapshot;
        timed_out = timed_out;
        ticks = n + length before + (if timed_out then 0 else 1);
      })
unfolding await_rounds
await_rounds-Ends [] after r timed_out n w e = ground arith
await_rounds-Ends (b ∷ before) after r timed_out n w e =
    ground (arith, await_rounds-Ends before after r timed_out (suc n) w.1 e)

-- A held request is let go in the very round that ends its hold, with that round's snapshot, whether
-- the deadline passed or the client left (timedOut) or the Model may be answered (not timedOut); by
-- then demand was signalled once at the start and once for each notification and tick before.
pub await-Ends :
    (first : Snapshot) (before after : List Round) (r : Round) (timed_out : Bool)
    → blocks first ≡ true
    → All IsWaiting before
    → Ends r timed_out
    → await first (before ++ (r ∷ after))
      ≡ some (record {
        snapshot = r.snapshot;
        timed_out = timed_out;
        ticks = 1 + length before + (if timed_out then 0 else 1);
      })
unfolding await
await-Ends first before after r timed_out b w e =
    rw b (await_rounds-Ends before after r timed_out 1 w e)

-- What Await may return: not timed out, only a snapshot on which Decide does not block.
abbrev pub IsRelease : Option Held → Type 0
IsRelease none = Unit
IsRelease (some h) = (h.timed_out ≡ true) ⊎ (blocks h.snapshot ≡ false)

await_rounds-IsRelease : (rounds : List Round) (n : ℕ) → IsRelease (await_rounds rounds n)
unfolding await_rounds
await_rounds-IsRelease [] n = tt
await_rounds-IsRelease (r ∷ rs) n = ground (arith, await_rounds-IsRelease rs (suc n))

-- A hold that ends without a timeout ends on a snapshot that Decide would no longer hold.
pub await-IsRelease : (first : Snapshot) (rounds : List Round) → IsRelease (await first rounds)
unfolding await
await-IsRelease first rounds = ground (arith, await_rounds-IsRelease rounds 1)

-- ===== src/Proxy/Handler/Rounds.antt =====
-- The loop of retryForward ends.
use squall.Common.{
  ℕ, zero, suc, ◌+◌, ◌*◌, ◌≤◌, ◌<◌, ◌≡◌, ◌≢◌, ◌⊎◌, inl, inr, Bool, true, not, List, [], ◌∷◌, arith,
  Bool-cases, leb, ◌==◌, length,
}
use squall.Proxy.Decision.{decide}
use squall.Proxy.Handler.{
  Attempt, committed, retried, Round, Retried, more, retry_forward, after_attempt,
}

-- The clock over the rounds: each waits for the refresh interval, or for the deadline where that is
-- nearer.
abbrev IsNext : ℕ → ℕ → ℕ → List Round → Type 0
IsNext refresh deadline now [] = Unit
IsNext refresh deadline now (r ∷ rs) = (now + refresh ≤ r.now) ⊎ (deadline ≤ r.now)

abbrev pub IsTimed : ℕ → ℕ → List Round → Type 0
IsTimed refresh deadline [] = Unit
IsTimed refresh deadline (r ∷ rs) = IsNext refresh deadline r.now rs × IsTimed refresh deadline rs

abbrev Late : ℕ → ℕ → ℕ → List Round → Type 0
Late refresh deadline n [] = Unit
Late refresh deadline n (r ∷ rs) = deadline ≤ r.now + n * refresh

attempt-ends :
    (a : Attempt) (again : Bool → Retried)
    → ((flag : Bool) → again flag ≢ more)
    → after_attempt a again ≢ more
attempt-ends (committed up) again h e = ground (arith, e)
attempt-ends (retried flag) again h e = h flag e

next-Late :
    (refresh deadline now n : ℕ) (rs : List Round)
    → IsNext refresh deadline now rs
    → deadline ≤ now + suc n * refresh
    → Late refresh deadline n rs
next-Late refresh deadline now n [] i l = tt
next-Late refresh deadline now n (r ∷ rs) (inl i) l = ground (arith, i, l)
next-Late refresh deadline now n (r ∷ rs) (inr i) l = ground (arith, i)

ends :
    (refresh deadline n : ℕ) (last : Bool) (rs : List Round)
    → IsTimed refresh deadline rs
    → Late refresh deadline n rs
    → n < length rs
    → retry_forward deadline last rs ≢ more
unfolding retry_forward
ends refresh deadline n last [] t l h = ground (arith, h)
ends refresh deadline zero last (r ∷ rs) t l h =
    let due : leb deadline r.now ≡ true = ground (arith, l) in simp due (λ e. ground (arith, e))
ends refresh deadline (suc n) last (r ∷ rs) t l h = elim (Bool-cases (leb deadline r.now)) [
  | inl a ↦ simp a (λ e. ground (arith, e))
  | inr a ↦ elim (Bool-cases r.cancelled) [
    | inl b ↦ simp (a, b) (λ e. ground (arith, e))
    | inr b ↦
        elim (Bool-cases
          (not ((decide r.snapshot.phase r.snapshot.has_cr 0).immediate_status == 0))) [
            | inl c ↦ simp (a, b, c) (λ e. ground (arith, e))
            | inr c ↦
                simp (a, b, c)
                  (attempt-ends r.attempt (λ flag. retry_forward deadline flag rs)
                    (λ flag.
                      ends refresh deadline n flag rs t.1
                        (next-Late refresh deadline r.now n rs t.0 l) (ground (arith, h))))
          ]
  ]
]

-- The first round begins at `now`.
abbrev pub StartsAt : ℕ → List Round → Type 0
StartsAt now [] = Unit
StartsAt now (r ∷ rs) = r.now ≡ now

starts-Late :
    (refresh deadline now n : ℕ) (rs : List Round)
    → StartsAt now rs
    → deadline ≤ now + n * refresh
    → Late refresh deadline n rs
starts-Late refresh deadline now n [] s l = tt
starts-Late refresh deadline now n (r ∷ rs) s l = rw s l

-- If each round waits for the refresh interval, or for the deadline where that is nearer, the loop ends
-- within n + 1 rounds as soon as n intervals reach the deadline, whatever the attempts give.
pub retry_forward-ends :
    (refresh deadline now n : ℕ) (last : Bool) (rs : List Round)
    → StartsAt now rs
    → IsTimed refresh deadline rs
    → deadline ≤ now + n * refresh
    → n < length rs
    → retry_forward deadline last rs ≢ more
retry_forward-ends refresh deadline now n last rs s t l h =
    ends refresh deadline n last rs t (starts-Late refresh deadline now n rs s l) h

-- ===== src/Controller/Activity/Loop.antt =====
-- The loop of aggregateActivity: which answers let it go on, and what its tally says of them.
use squall.Common.{
  ℕ, pos, ◌≤◌, ◌≡◌, ◌↔◌, ◌⊎◌, inl, inr, refl, true, false, none, String, List, [], ◌∷◌, arith,
  lookup, All, Holds, Option-cases, ◌≤ℤ◌, is_zero, is_none,
}
use squall.Controller.Activity.{ActivityQuery, Tally, step, visit, answer_or_zero}

-- A readable and unambiguous answer.
pub record IsClear (now : ℕ) (q : ActivityQuery) : Type 0 where
  pub is_ok : q.ok ≡ true
  pub counted : pos 0 ≤ℤ q.in_flight
  pub past : q.last_request_at ≤ now

step-some_iff :
    (now : ℕ) (t : Tally) (q : ActivityQuery) → (is_none (step now t q) ≡ false) ↔ IsClear now q
unfolding step
step-some_iff now t q = ground arith

pub visit-some_iff :
    (got : List (String × ActivityQuery)) (now : ℕ) (t : Tally) (addrs : List String)
    → (is_none (visit got now t addrs) ≡ false)
      ↔ All (λ a. IsClear now (answer_or_zero (lookup a got))) addrs
unfolding visit
visit-some_iff got now t [] = ground arith
visit-some_iff got now t (a ∷ addrs) =
    let clear = step-some_iff now t (answer_or_zero (lookup a got)) in
    elim (Option-cases (step now t (answer_or_zero (lookup a got)))) [
      | inl e ↦ rw (e, visit) (ground (arith, clear))
      | inr (u, e) ↦ rw (e, visit) (ground (arith, clear, visit-some_iff got now u addrs))
    ]

-- An answer without work in flight: no entry for the Model, or a count of 0.
abbrev pub IsQuiet : ActivityQuery → Type 0
IsQuiet q = (q.no_data ≡ true) ⊎ (is_zero q.in_flight ≡ true)

-- An answer whose request, if it reports one, is no later than an instant.
abbrev pub IsBefore : ℕ → ActivityQuery → Type 0
IsBefore newest q = (q.no_data ≡ true) ⊎ (q.last_request_at ≤ newest)

pub record IsIdleAnswer (now : ℕ) (q : ActivityQuery) : Type 0 where
  pub clear : IsClear now q
  pub quiet : IsQuiet q

step-idle_iff :
    (now : ℕ) (t : Tally) (q : ActivityQuery)
    → Holds (λ u. u.all_idle ≡ true) (step now t q) ↔ ((t.all_idle ≡ true) × IsIdleAnswer now q)
unfolding step
step-idle_iff now t q = ground arith

pub visit-idle_iff :
    (got : List (String × ActivityQuery)) (now : ℕ) (t : Tally) (addrs : List String)
    → Holds (λ u. u.all_idle ≡ true) (visit got now t addrs)
      ↔ ((t.all_idle ≡ true) × All (λ a. IsIdleAnswer now (answer_or_zero (lookup a got))) addrs)
unfolding visit
visit-idle_iff got now t [] = ground arith
visit-idle_iff got now t (a ∷ addrs) =
    let idle = step-idle_iff now t (answer_or_zero (lookup a got)) in
    elim (Option-cases (step now t (answer_or_zero (lookup a got)))) [
      | inl e ↦ rw (e, visit) (let idle' = rw e at idle in ground (arith, idle'))
      | inr (u, e) ↦
          rw (e, visit)
            (let idle' = rw e at idle in ground (arith, idle', visit-idle_iff got now u addrs))
    ]

-- A tally that is not all idle has seen data.
step-data :
    (now : ℕ) (t : Tally) (q : ActivityQuery)
    → ((t.all_idle ≡ true) ⊎ (t.saw_data ≡ true))
    → (is_none (step now t q) ≡ true)
      ⊎ Holds (λ u. (u.all_idle ≡ true) ⊎ (u.saw_data ≡ true)) (step now t q)
unfolding step
step-data now t q h = ground arith

pub visit-data :
    (got : List (String × ActivityQuery)) (now : ℕ) (t : Tally) (addrs : List String)
    → ((t.all_idle ≡ true) ⊎ (t.saw_data ≡ true))
    → (visit got now t addrs ≡ none)
      ⊎ Holds (λ u. (u.all_idle ≡ true) ⊎ (u.saw_data ≡ true)) (visit got now t addrs)
unfolding visit
visit-data got now t [] h = inr h
visit-data got now t (a ∷ addrs) h =
    let data' = step-data now t (answer_or_zero (lookup a got)) h in
    elim (Option-cases (step now t (answer_or_zero (lookup a got)))) [
      | inl e ↦ rw (e, visit) (inl refl)
      | inr (u, e) ↦
          rw (e, visit) (visit-data got now u addrs (let d = rw e at data' in ground (arith, d)))
    ]

step-newest :
    (now newest : ℕ) (t : Tally) (q : ActivityQuery)
    → Holds (λ u. u.newest ≤ newest) (step now t q)
    → (t.newest ≤ newest) × IsBefore newest q
unfolding step
step-newest now newest t q h = ground arith

pub visit-newest :
    (got : List (String × ActivityQuery)) (now newest : ℕ) (t : Tally) (addrs : List String)
    → Holds (λ u. u.newest ≤ newest) (visit got now t addrs)
    → (t.newest ≤ newest) × All (λ a. IsBefore newest (answer_or_zero (lookup a got))) addrs
unfolding visit
visit-newest got now newest t [] h = ground arith
visit-newest got now newest t (a ∷ addrs) h =
    let before = step-newest now newest t (answer_or_zero (lookup a got)) in
    elim (Option-cases (step now t (answer_or_zero (lookup a got)))) [
      | inl e ↦ let h' = rw (e, visit) at h in absurd h'
      | inr (u, e) ↦
          let h' = rw (e, visit) at h in
          let rest = visit-newest got now newest u addrs h' in
          let before' = rw e at before in let first = before' rest.0 in (first.0, (first.1, rest.1))
    ]

-- The answers that the loop looks up are the last ones of their addresses.
step-unseen :
    (now : ℕ) (t : Tally) (q : ActivityQuery)
    → ((t.saw_data ≡ true) ⊎ (t.newest ≡ 0))
    → (is_none (step now t q) ≡ true)
      ⊎ Holds (λ u. (u.saw_data ≡ true) ⊎ (u.newest ≡ 0)) (step now t q)
unfolding step
step-unseen now t q h = ground arith

pub visit-unseen :
    (got : List (String × ActivityQuery)) (now : ℕ) (t : Tally) (addrs : List String)
    → ((t.saw_data ≡ true) ⊎ (t.newest ≡ 0))
    → (visit got now t addrs ≡ none)
      ⊎ Holds (λ u. (u.saw_data ≡ true) ⊎ (u.newest ≡ 0)) (visit got now t addrs)
unfolding visit
visit-unseen got now t [] h = inr h
visit-unseen got now t (a ∷ addrs) h =
    let data' = step-unseen now t (answer_or_zero (lookup a got)) h in
    elim (Option-cases (step now t (answer_or_zero (lookup a got)))) [
      | inl e ↦ rw (e, visit) (inl refl)
      | inr (u, e) ↦
          rw (e, visit) (visit-unseen got now u addrs (let d = rw e at data' in ground (arith, d)))
    ]

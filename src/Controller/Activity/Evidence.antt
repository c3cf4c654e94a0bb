-- ===== src/Controller/Activity/Evidence.antt =====
-- What aggregateActivity's evidence says of the replicas.
use squall.Common.{
  ℕ, ◌≤◌, ◌≡◌, ◌≢◌, ◌↔◌, ◌⊎◌, inl, inr, refl, sym, ap, subst, ◌∙◌, true, false, Option, none, some,
  String, List, [], ◌∷◌, arith, lookup, All, Holds, Option-cases, is_none,
}
use squall.Controller.Activity.{
  ActivityQuery, Tally, distinct, collect, visit, start, evidence_of, answer_or_zero,
  aggregate_activity, aggregate_over,
}
use squall.Controller.Activity.Answers.{
  EachAnswer, last_answer, got_complete, All-distinct, lookup-collect, IsWithin, contains_self,
}
use squall.Controller.Activity.Loop.{
  IsClear, IsBefore, IsIdleAnswer, visit-some_iff, visit-idle_iff, visit-data, visit-newest,
  visit-unseen,
}

All-answers :
    (P : ActivityQuery → Type 0) (want xs : List String) (qs : List ActivityQuery)
    → IsWithin want xs
    → (¬ P (answer_or_zero none))
    → All (λ a. P (answer_or_zero (lookup a (collect want qs [])))) xs ↔ EachAnswer P xs qs
All-answers P want [] qs h z = (λ k. k, λ k. k)
All-answers P want (x ∷ xs) qs h z =
    rw (lookup-collect want x qs [] h.0) (elim (Option-cases (last_answer x qs none)) [
      | inl e ↦ rw e (ground (arith, z))
      | inr (q, e) ↦ rw e (ground (arith, All-answers P want xs qs h.1 z))
    ])

each-known :
    (P : ActivityQuery → Type 0) (xs : List String) (qs : List ActivityQuery)
    → EachAnswer P xs qs
    → All (λ a. is_none (last_answer a qs none) ≡ false) xs
each-known P [] qs h = tt
each-known P (x ∷ xs) qs h = elim (Option-cases (last_answer x qs none)) [
  | inl e ↦ let h' = rw e at (h.0) in absurd h'
  | inr (q, e) ↦ (rw e refl, each-known P xs qs h.1)
]

module _ (addrs : List String) (qs : List ActivityQuery) (now : ℕ) where
  abbrev keys_of : List String
  keys_of = distinct addrs

  abbrev answers_of : List (String × ActivityQuery)
  answers_of = collect keys_of qs []

  over-complete_iff :
      ((aggregate_over keys_of answers_of now).complete ≡ true) ↔ EachAnswer (IsClear now) addrs qs
  over-complete_iff =
      let full = got_complete addrs qs in
      let each = All-distinct (λ a. Holds (IsClear now) (last_answer a qs none)) addrs in
      let clear = visit-some_iff answers_of now start keys_of in
      let answers =
        All-answers (IsClear now) keys_of keys_of qs (contains_self keys_of) (λ c. cc c.is_ok) in
      let known = each-known (IsClear now) keys_of qs in
      ground (arith, full, each, clear, answers, known)

  over-idle_iff :
      (((aggregate_over keys_of answers_of now).complete ≡ true)
        × ((aggregate_over keys_of answers_of now).all_idle ≡ true))
      ↔ EachAnswer (IsIdleAnswer now) addrs qs
  over-idle_iff =
      let full = got_complete addrs qs in
      let each = All-distinct (λ a. Holds (IsIdleAnswer now) (last_answer a qs none)) addrs in
      let idle = visit-idle_iff answers_of now start keys_of in
      let answers =
        All-answers (IsIdleAnswer now) keys_of keys_of qs (contains_self keys_of)
          (λ c. cc c.clear.is_ok) in
      let known = each-known (IsIdleAnswer now) keys_of qs in
      let seen = visit-data answers_of now start keys_of (inl refl) in
      ground (arith, full, each, idle, answers, known, seen)

-- The evidence is complete exactly if replicas were expected and the last answer of each is
-- readable, counts no negative work and reports no request from the future.
pub aggregate_complete_iff :
    (addrs : List String) (qs : List ActivityQuery) (now : ℕ)
    → ((aggregate_activity addrs qs now).complete ≡ true)
      ↔ ((addrs ≢ []) × EachAnswer (IsClear now) addrs qs)
unfolding aggregate_activity
aggregate_complete_iff [] qs now = (λ e. cc, λ h. absurd (h.0 refl))
aggregate_complete_iff (a ∷ addrs) qs now =
    let over = over-complete_iff (a ∷ addrs) qs now in (λ e. (λ n. cc, over.0 e), λ h. over.1 h.1)

-- It is complete and all idle exactly if, besides, no last answer has work in flight.
pub aggregate_idle_iff :
    (addrs : List String) (qs : List ActivityQuery) (now : ℕ)
    → (((aggregate_activity addrs qs now).complete ≡ true)
        × ((aggregate_activity addrs qs now).all_idle ≡ true))
      ↔ ((addrs ≢ []) × EachAnswer (IsIdleAnswer now) addrs qs)
unfolding aggregate_activity
aggregate_idle_iff [] qs now = (λ e. cc (e.0), λ h. absurd (h.0 refl))
aggregate_idle_iff (a ∷ addrs) qs now =
    let over = over-idle_iff (a ∷ addrs) qs now in (λ e. (λ n. cc, over.0 e), λ h. over.1 h.1)

tally-newest :
    (o : Option Tally)
    → ((o ≡ none) ⊎ Holds (λ u. (u.saw_data ≡ true) ⊎ (u.newest ≡ 0)) o)
    → (evidence_of o).complete ≡ true
    → Holds (λ u. u.newest ≤ (evidence_of o).newest_last_request_at) o
tally-newest none h c = cc
tally-newest (some u) h c = ground arith

-- A clear answer whose request is bounded.
pub record IsBounded (now newest : ℕ) (q : ActivityQuery) : Type 0 where
  pub clear : IsClear now q
  pub before : IsBefore newest q

All-IsBounded :
    (got : List (String × ActivityQuery)) (now newest : ℕ) (xs : List String)
    → All (λ a. IsClear now (answer_or_zero (lookup a got))) xs
    → All (λ a. IsBefore newest (answer_or_zero (lookup a got))) xs
    → All (λ a. IsBounded now newest (answer_or_zero (lookup a got))) xs
All-IsBounded got now newest [] h k = tt
All-IsBounded got now newest (x ∷ xs) h k =
    (record { clear = h.0; before = k.0 }, All-IsBounded got now newest xs h.1 k.1)

over-newest :
    (addrs : List String) (qs : List ActivityQuery) (now : ℕ)
    → let ev = aggregate_over (keys_of addrs qs now) (answers_of addrs qs now) now in
      ev.complete ≡ true → EachAnswer (IsBounded now ev.newest_last_request_at) addrs qs
over-newest addrs qs now c =
    let w = keys_of addrs qs now in
    let g = answers_of addrs qs now in
    let v = visit g now start w in
    let n = (evidence_of v).newest_last_request_at in
    let e : aggregate_over w g now ≡ evidence_of v = ground arith in
    let whole : (evidence_of v).complete ≡ true = ap (λ ev. ev.complete) (sym e) ∙ c in
    let held = tally-newest v (visit-unseen g now start w (inr refl)) whole in
    let before = (visit-newest g now n start w held).1 in
    let known : is_none v ≡ false = ground (arith, whole) in
    let clear = (visit-some_iff g now start w).0 known in
    let bounded =
      (All-answers (IsBounded now n) w w qs (contains_self w) (λ b. cc b.clear.is_ok)).0
        (All-IsBounded g now n w clear before) in
    subst (λ ev. EachAnswer (IsBounded now ev.newest_last_request_at) addrs qs) (sym e)
      ((All-distinct (λ a. Holds (IsBounded now n) (last_answer a qs none)) addrs).0 bounded)

-- Complete evidence bounds the requests of all replicas: no last answer that has an entry for the
-- Model reports a request later than NewestLastRequestAt.
pub aggregate_newest :
    (addrs : List String) (qs : List ActivityQuery) (now : ℕ)
    → (aggregate_activity addrs qs now).complete ≡ true
    → EachAnswer (IsBounded now (aggregate_activity addrs qs now).newest_last_request_at) addrs qs
unfolding aggregate_activity
aggregate_newest [] qs now c = cc
aggregate_newest (a ∷ addrs) qs now c = over-newest (a ∷ addrs) qs now c

-- Evidence without data has no newest request.
pub aggregate_unseen :
    (addrs : List String) (qs : List ActivityQuery) (now : ℕ)
    → let ev = aggregate_activity addrs qs now in
      (ev.any_data ≡ true) ⊎ (ev.newest_last_request_at ≡ 0)
unfolding aggregate_activity
aggregate_unseen [] qs now = inr refl
aggregate_unseen (a ∷ addrs) qs now = ground arith

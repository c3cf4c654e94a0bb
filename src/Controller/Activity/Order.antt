-- ===== src/Controller/Activity/Order.antt =====
-- Go iterates over a map in an unspecified order: the loop of aggregateActivity in activity.go over
-- two orders of the same addresses.
use mathlib.Core.Logic.{∥∥₁_elim, inl, inr}
use mathlib.Core.Path.{ap₂}
use mathlib.Core.List.{Perm, Permᴰ}
use squall.Common.{
  ℕ, ◌≡◌, refl, sym, ap, ◌∙◌, Option, none, some, String, List, ◌∷◌, arith, lookup, Option-cases,
}
use squall.Controller.Activity.{ActivityQuery, Tally, step, visit, later_of, answer_or_zero}

Tally-set : IsSet (Option Tally)
Tally-set = hlevel

abbrev then_step : ℕ → ActivityQuery → Option Tally → Option Tally
then_step now q none = none
then_step now q (some t) = step now t q

later_of_swap : (a b n : ℕ) → later_of a (later_of b n) ≡ later_of b (later_of a n)
later_of_swap a b n = ground arith

step_swap :
    (now : ℕ) (t : Tally) (q r : ActivityQuery)
    → then_step now r (step now t q) ≡ then_step now q (step now t r)
unfolding step
step_swap now t q r = ground (
  arith,
  later_of_swap q.last_request_at r.last_request_at t.newest,
  later_of_swap q.last_success_at r.last_success_at t.newest_success,
)

abbrev visit_from : List (String × ActivityQuery) → ℕ → Option Tally → List String → Option Tally
visit_from got now none addrs = none
visit_from got now (some t) addrs = visit got now t addrs

visit_from-cons :
    (got : List (String × ActivityQuery)) (now : ℕ) (o : Option Tally) (a : String)
    (addrs : List String)
    → visit_from got now o (a ∷ addrs)
      ≡ visit_from got now (then_step now (answer_or_zero (lookup a got)) o) addrs
unfolding visit
visit_from-cons got now none a addrs = refl
visit_from-cons got now (some t) a addrs =
    elim (Option-cases (step now t (answer_or_zero (lookup a got)))) [
      | inl e ↦ rw (e, visit)
      | inr (u, e) ↦ rw (e, visit)
    ]

module _ (got : List (String × ActivityQuery)) (now : ℕ) where
  abbrev answer : String → ActivityQuery
  answer a = answer_or_zero (lookup a got)

  visit_from-swap :
      (o : Option Tally) (a b : String) (addrs : List String)
      → visit_from got now o (a ∷ b ∷ addrs) ≡ visit_from got now o (b ∷ a ∷ addrs)
  visit_from-swap none a b addrs = refl
  visit_from-swap (some t) a b addrs =
      visit_from-cons got now (some t) a (b ∷ addrs)
      ∙ visit_from-cons got now (step now t (answer a)) b addrs
      ∙ ap (λ o. visit_from got now o addrs) (step_swap now t (answer a) (answer b))
      ∙ sym (visit_from-cons got now (step now t (answer b)) a addrs)
      ∙ sym (visit_from-cons got now (some t) b (a ∷ addrs))

  visit_from-perm :
      {xs ys : List String}
      → Permᴰ xs ys
      → (o : Option Tally) → visit_from got now o xs ≡ visit_from got now o ys
  visit_from-perm Permᴰ.nil o = refl
  visit_from-perm (Permᴰ.cons {a = a} {b = b} {l₁ = xs} {l₂ = ys} e p) o =
      visit_from-cons got now o a xs
      ∙ visit_from-perm p (then_step now (answer a) o)
      ∙ sym (visit_from-cons got now o a ys)
      ∙ ap (λ c. visit_from got now o (c ∷ ys)) e
  visit_from-perm (Permᴰ.swap {a = a} {b = b} {l = xs} e f) o =
      visit_from-swap o a b xs ∙ ap₂ (λ c d. visit_from got now o (c ∷ d ∷ xs)) f e
  visit_from-perm (Permᴰ.trans p q) o = visit_from-perm p o ∙ visit_from-perm q o

  -- Two orders of the same addresses give the same tally, and stop early alike.
  pub visit-perm :
      (t : Tally) (xs ys : List String) → Perm xs ys → visit got now t xs ≡ visit got now t ys
  visit-perm t xs ys p = ∥∥₁_elim p (Tally-set _ _) (λ q. visit_from-perm q (some t))

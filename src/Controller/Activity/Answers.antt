-- ===== src/Controller/Activity/Answers.antt =====
-- The maps `want` and `got` of aggregateActivity in activity.go.
use squall.Common.{
  ℕ, suc, ◌+◌, ◌≤◌, ◌≡◌, ◌↔◌, inl, inr, refl, sym, ap, subst, ◌∙◌, true, false, Option, none, some,
  String, List, [], ◌∷◌, arith, ◌==◌, str_eq, if◌then◌else◌, length, lookup, insert, lookup-insert,
  contains, eq_iff, eq_refl, Bool-cases, All, Holds, is_none,
}
use squall.Controller.Activity.{ActivityQuery, distinct, collect}

-- The last query for an address.
unfoldable pub last_answer :
    String → List ActivityQuery → Option ActivityQuery → Option ActivityQuery
last_answer a [] found = found
last_answer a (q ∷ qs) found = last_answer a qs (if str_eq q.address a then some q else found)

pub lookup-collect :
    (want : List String) (a : String) (qs : List ActivityQuery)
    (got : List (String × ActivityQuery))
    → contains a want ≡ true
    → lookup a (collect want qs got) ≡ last_answer a qs (lookup a got)
unfolding collect last_answer
lookup-collect want a [] got h = refl
lookup-collect want a (q ∷ qs) got h = elim (Bool-cases (contains q.address want)) [
  | inl w ↦ rw w (
      lookup-collect want a qs (insert q.address q got) h
      ∙ ap (last_answer a qs) (lookup-insert q.address a q got))
  | inr w ↦
      rw w (
        lookup-collect want a qs got h ∙ ap (last_answer a qs) (ground (arith, eq_iff q.address a)))
]

contains-distinct :
    (a : String) (addrs : List String) → contains a (distinct addrs) ≡ contains a addrs
unfolding distinct
contains-distinct a [] = refl
contains-distinct a (x ∷ addrs) =
    ground (arith, contains-distinct a addrs, contains-distinct x addrs, eq_iff x a)

occurrences : String → List String → ℕ
occurrences a [] = 0
occurrences a (x ∷ addrs) = if str_eq x a then suc (occurrences a addrs) else occurrences a addrs

occurrences-zero :
    (a : String) (addrs : List String) → contains a addrs ≡ false → occurrences a addrs ≡ 0
unfolding occurrences
occurrences-zero a [] h = refl
occurrences-zero a (x ∷ addrs) h = ground (arith, occurrences-zero a addrs)

occurrences-distinct :
    (a : String) (addrs : List String)
    → occurrences a (distinct addrs) ≡ (if contains a (distinct addrs) then 1 else 0)
unfolding distinct occurrences
occurrences-distinct a [] = refl
occurrences-distinct a (x ∷ addrs) =
    ground (arith, occurrences-distinct a addrs, eq_iff x a, occurrences-zero a (distinct addrs))

-- How many of the addresses have an entry.
answered : List (String × ActivityQuery) → List String → ℕ
answered got [] = 0
answered got (a ∷ addrs) =
    if is_none (lookup a got) then answered got addrs else suc (answered got addrs)

answered-le :
    (got : List (String × ActivityQuery)) (addrs : List String) → answered got addrs ≤ length addrs
unfolding answered
answered-le got [] = omega arith
answered-le got (a ∷ addrs) = ground (arith, answered-le got addrs)

length-insert :
    (k : String) (q : ActivityQuery) (got : List (String × ActivityQuery))
    → length (insert k q got) ≡ (if is_none (lookup k got) then suc (length got) else length got)
length-insert k q [] = refl
length-insert k q ((j, v) ∷ got) = ground (arith, length-insert k q got)

answered-insert :
    (k : String) (q : ActivityQuery) (got : List (String × ActivityQuery)) (addrs : List String)
    → answered (insert k q got) addrs ≡ (
        if is_none (lookup k got)
        then answered got addrs + occurrences k addrs
        else answered got addrs)
unfolding answered occurrences
answered-insert k q got [] = ground arith
answered-insert k q got (a ∷ addrs) =
    ground (arith, answered-insert k q got addrs, lookup-insert k a q got, eq_iff k a, eq_iff a k)

-- `len(got)` counts the wanted addresses that have an answer.
length-collect :
    (addrs : List String) (qs : List ActivityQuery) (got : List (String × ActivityQuery))
    → length got ≡ answered got (distinct addrs)
    → length (collect (distinct addrs) qs got)
      ≡ answered (collect (distinct addrs) qs got) (distinct addrs)
unfolding collect
length-collect addrs [] got h = h
length-collect addrs (q ∷ qs) got h = elim (Bool-cases (contains q.address (distinct addrs))) [
  | inl w ↦ rw w (
      length-collect addrs qs (insert q.address q got) (
        ground (
          arith,
          length-insert q.address q got,
          answered-insert q.address q got (distinct addrs),
          occurrences-distinct q.address addrs,
        )))
  | inr w ↦ rw w (length-collect addrs qs got h)
]

-- Every address has an answer that satisfies P.
abbrev pub EachAnswer : (ActivityQuery → Type 0) → List String → List ActivityQuery → Type 0
EachAnswer P addrs qs = All (λ a. Holds P (last_answer a qs none)) addrs

abbrev Answered : List (String × ActivityQuery) → List String → Type 0
Answered got addrs = All (λ a. is_none (lookup a got) ≡ false) addrs

answered-length :
    (got : List (String × ActivityQuery)) (addrs : List String)
    → (answered got addrs ≡ length addrs) ↔ Answered got addrs
unfolding answered
answered-length got [] = ground arith
answered-length got (a ∷ addrs) = ground (arith, answered-length got addrs, answered-le got addrs)

answered-nil : (addrs : List String) → 0 ≡ answered [] addrs
unfolding answered
answered-nil [] = refl
answered-nil (a ∷ addrs) = answered-nil addrs

-- The items of a list are among another's.
abbrev pub IsWithin : List String → List String → Type 0
IsWithin want xs = All (λ a. contains a want ≡ true) xs

IsWithin-weaken : (b : String) (want xs : List String) → IsWithin want xs → IsWithin (b ∷ want) xs
IsWithin-weaken b want [] h = tt
IsWithin-weaken b want (x ∷ xs) h = (ground arith, IsWithin-weaken b want xs h.1)

pub contains_self : (xs : List String) → IsWithin xs xs
contains_self [] = tt
contains_self (x ∷ xs) = (rw (eq_refl x), IsWithin-weaken x xs xs (contains_self xs))

Answered-collect :
    (want xs : List String) (qs : List ActivityQuery)
    → IsWithin want xs
    → Answered (collect want qs []) xs ↔ All (λ a. is_none (last_answer a qs none) ≡ false) xs
Answered-collect want [] qs h = (λ k. k, λ k. k)
Answered-collect want (x ∷ xs) qs h =
    rw (lookup-collect want x qs [] h.0) (ground (arith, Answered-collect want xs qs h.1))

-- The test `len(got) != len(want)`.
pub got_complete :
    (addrs : List String) (qs : List ActivityQuery)
    → ((length (collect (distinct addrs) qs []) == length (distinct addrs)) ≡ true)
      ↔ All (λ a. is_none (last_answer a qs none) ≡ false) (distinct addrs)
got_complete addrs qs =
    let counted = length-collect addrs qs [] (answered-nil (distinct addrs)) in
    let all = answered-length (collect (distinct addrs) qs []) (distinct addrs) in
    let same =
      Answered-collect (distinct addrs) (distinct addrs) qs (contains_self (distinct addrs)) in
    ground (arith, counted, all, same)

All-contains :
    (P : String → Type 0) (a : String) (addrs : List String)
    → contains a addrs ≡ true
    → All P addrs
    → P a
All-contains P a [] c h = cc
All-contains P a (x ∷ addrs) c h = elim (Bool-cases (str_eq x a)) [
  | inl e ↦ subst P ((eq_iff x a).0 e) h.0
  | inr e ↦ All-contains P a addrs (ground arith) h.1
]

-- A predicate of all addresses may skip the repeated ones.
pub All-distinct :
    (P : String → Type 0) (addrs : List String) → All P (distinct addrs) ↔ All P addrs
unfolding distinct
All-distinct P [] = (λ h. h, λ h. h)
All-distinct P (a ∷ addrs) = elim (Bool-cases (contains a (distinct addrs))) [
  | inl dup ↦ rw dup (
      ground (
        arith,
        All-distinct P addrs,
        All-contains P a addrs (sym (contains-distinct a addrs) ∙ dup),
      ))
  | inr new ↦ rw new (ground (arith, All-distinct P addrs))
]

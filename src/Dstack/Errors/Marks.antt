-- ===== src/Dstack/Errors/Marks.antt =====
-- Which detail of an answer decides the error.
use squall.Common.{
  leb, ltb, ◌&&◌, ◌||◌, ◌==◌, ℕ, ◌≤◌, ◌<◌, ◌≡◌, ◌≢◌, ◌⊎◌, ◌↔◌, inl, inr, refl, none, some, List, [],
  ◌∷◌, ◌++◌, arith, All, Bool-cases, Option-cases, ap, ◌∙◌,
}
use squall.Dstack.Errors.{
  ErrorDetail, Detail, parse_details, Sentinel, error_unauthorized, error_other, mark_of,
  first_mark, classify_error_body, classify_error,
}

abbrev pub IsUnmarked : ErrorDetail → Type 0
IsUnmarked d = mark_of d ≡ none

-- A detail with the mark k, before which there are only details without a mark.
abbrev pub IsFirst : Sentinel → List ErrorDetail → Type 0
IsFirst k ds =
    (before : List ErrorDetail) × (d : ErrorDetail) × (after : List ErrorDetail) × (ds
      ≡ before ++ (d ∷ after))
    × All IsUnmarked before
    × (mark_of d ≡ some k)

first_mark-none_iff : (ds : List ErrorDetail) → (first_mark ds ≡ none) ↔ All IsUnmarked ds
unfolding first_mark
first_mark-none_iff [] = ground arith
first_mark-none_iff (d ∷ ds) = elim (Option-cases (mark_of d)) [
  | inl e ↦ rw e (ground (arith, first_mark-none_iff ds))
  | inr (k, e) ↦ rw e (ground arith)
]

first_mark-IsFirst : (k : Sentinel) (ds : List ErrorDetail) → first_mark ds ≡ some k → IsFirst k ds
unfolding first_mark
first_mark-IsFirst k [] h = ground (arith, h)
first_mark-IsFirst k (d ∷ ds) h = elim (Option-cases (mark_of d)) [
  | inr (j, e) ↦ let h' = rw (e, first_mark) at h in ([], d, ds, refl, tt, e ∙ h')
  | inl e ↦
      let h' = rw (e, first_mark) at h in
      let (before, x, after, s, u, m) = first_mark-IsFirst k ds h' in
      (d ∷ before, x, after, ap (λ l. d ∷ l) s, (e, u), m)
]

-- Every answer outside 2xx is an error. Its kind is that of the first detail with a mark; without one it
-- is an authorization fault exactly for 401 and 403.
pub classify_error_cases :
    (status : ℕ) (detail : Detail)
    → ((200 ≤ status) × (status < 300) × (classify_error status detail ≡ none))
      ⊎ (((status < 200) ⊎ (300 ≤ status))
          × (((k : Sentinel) × (classify_error status detail ≡ some k)
                × IsFirst k (parse_details detail))
              ⊎ (All IsUnmarked (parse_details detail)
                  × ((classify_error status detail ≡ some error_unauthorized)
                        × ((status ≡ 401) ⊎ (status ≡ 403))
                      ⊎ (classify_error status detail ≡ some error_other)
                        × (status ≢ 401)
                        × (status ≢ 403)))))
unfolding classify_error classify_error_body
classify_error_cases status detail =
    let ds = parse_details detail in
    elim (Bool-cases (leb 200 status && ltb status 300)) [
      | inl b ↦ simp b (inl (ground (arith, b), ground (arith, b), refl))
      | inr b ↦ simp b (
          inr (
            ground (arith, b),
            elim (Option-cases (first_mark ds)) [
              | inr (k, e) ↦ inl (k, rw e refl, first_mark-IsFirst k ds e)
              | inl e ↦ inr (
                (first_mark-none_iff ds).0 e,
                elim (Bool-cases (status == 401 || status == 403)) [
                  | inl u ↦ inl (rw (e, u) refl, ground (arith, u))
                  | inr u ↦ inr (rw (e, u) refl, ground (arith, u), ground (arith, u))
                ],
              )
            ],
          ))
    ]

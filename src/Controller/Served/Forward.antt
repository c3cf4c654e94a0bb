-- ===== src/Controller/Served/Forward.antt =====
-- What servedModelToForward of served.go gives.
use Prim.Native.String.{◌++◌ as ◌++ₛ◌}
use squall.Common.{
  ◌≡◌, ◌≢◌, ◌⊎◌, inl, inr, refl, true, false, none, some, String, List, [], ◌∷◌, arith, contains,
  eq_iff, eq_refl, Option-cases,
}
use squall.Controller.Served.{served_model_match, served_model_matches, served_model_to_forward}

-- The name that answers a request for `want`: itself, or with Ollama's implicit tag.
abbrev pub Answers : String → String → Type 0
Answers want s = (s ≡ want) ⊎ (s ≡ want ++ₛ ":latest")

match_sound :
    (served : List String) (want s : String)
    → served_model_match served want ≡ some s
    → (contains s served ≡ true) × Answers want s
unfolding served_model_match
match_sound [] want s e = cc
match_sound (x ∷ served) want s e =
    ground
      (arith, match_sound served want s, eq_iff x want, eq_iff x (want ++ₛ ":latest"), eq_refl x)

match_complete :
    (served : List String) (want s : String)
    → served_model_match served want ≡ none
    → contains s served ≡ true
    → ¬ Answers want s
unfolding served_model_match
match_complete [] want s e c = cc
match_complete (x ∷ served) want s e c =
    ground (
      arith,
      match_complete served want s,
      eq_iff x want,
      eq_iff x (want ++ₛ ":latest"),
      eq_iff x s,
    )

-- Where a name is expected, the proxy forwards under a served name that answers to it, and under
-- none at all exactly if no served name does.
pub served_model_to_forward_expected :
    (served : List String) (want : String)
    → want ≢ ""
    → ((served_model_to_forward served want ≡ "")
        × (served_model_matches served want ≡ false)
        × ((s : String) → contains s served ≡ true → ¬ Answers want s))
      ⊎ ((served_model_matches served want ≡ true)
          × (contains (served_model_to_forward served want) served ≡ true)
          × Answers want (served_model_to_forward served want))
unfolding served_model_to_forward served_model_matches
served_model_to_forward_expected served want h =
    elim (Option-cases (served_model_match served want)) [
      | inl e ↦
          inl (ground (arith, e, eq_iff want ""), rw e, λ s c. match_complete served want s e c)
      | inr (s, e) ↦
          let found = match_sound served want s e in
          let f : served_model_to_forward served want ≡ s = ground (arith, e, eq_iff want "") in
          inr (rw e, rw f found.0, rw f found.1)
    ]

-- Where none is expected, the proxy forwards only under a name that is the single one served.
pub served_model_to_forward_unexpected :
    (served : List String)
    → (served_model_to_forward served "" ≡ "") ⊎ (served ≡ served_model_to_forward served "" ∷ [])
unfolding served_model_to_forward
served_model_to_forward_unexpected [] = inl refl
served_model_to_forward_unexpected (s ∷ []) = inr refl
served_model_to_forward_unexpected (s ∷ t ∷ served) = inl refl

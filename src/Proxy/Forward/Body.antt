-- ===== src/Proxy/Forward/Body.antt =====
-- Which model the body of a forwarded request names.
use squall.Common.{
  not, ◌&&◌, Option, none, some, String, List, if◌then◌else◌, str_eq, eq_iff, lookup, insert,
  lookup-insert, arith, ◌≡◌, ◌≢◌, ◌⊎◌, inl, inr, refl, ◌∙◌, subst, Holds, Holds-mono, Option-cases,
  Bool-cases,
}
use squall.Proxy.Cache.{ModelSnapshot, ModelCache, get}
use squall.Proxy.Forward.{
  ObjectCodec, outgoing_body, rewrite_model_field, rewritten_for, or_as_sent,
}

-- Whether bytes are read as the given members.
abbrev pub Reads :
    {Raw Member : Type 0} → ObjectCodec Raw Member → (String → Option Member) → Raw → Type 0
Reads codec member bytes =
    Holds (λ obj. (k : String) → lookup k obj ≡ member k) (codec.decode bytes)

-- What is documented of encoding/json: an object that was read can be written, and is read back with its
-- members, and a text can be a member.
abbrev pub IsFaithful : {Raw Member : Type 0} → ObjectCodec Raw Member → Type 0
IsFaithful {Member = Member} codec =
    ((obj : List (String × Member)) → Holds (Reads codec (λ k. lookup k obj)) (codec.encode obj))
    × ((name : String) → Holds (λ raw. Unit) (codec.quote name))

module _ {Raw Member : Type 0} (codec : ObjectCodec Raw Member) (faithful : IsFaithful codec) where
  abbrev pub Renamed : String → List (String × Member) → Option Raw → Type 0
  Renamed to obj out =
      (raw : Member) × (codec.quote to ≡ some raw)
      × Holds (Reads codec (λ k. if str_eq "model" k then some raw else lookup k obj)) out

  rewrite-Renamed :
      (body : Raw) (to : String) (obj : List (String × Member))
      → codec.decode body ≡ some obj
      → Renamed to obj (rewrite_model_field codec (some body) to)
  unfolding rewrite_model_field
  rewrite-Renamed body to obj e = elim (Option-cases (codec.quote to)) [
    | inl q ↦ absurd (subst (Holds (λ raw. Unit)) q (faithful.1 to))
    | inr (raw, q) ↦
        rw (e, q)
          (
            raw,
            refl,
            Holds-mono _ _ (codec.encode (insert "model" raw obj))
                (λ b i h.
                  Holds-mono _ _ (codec.decode b)
                    (λ read j g k. g k ∙ lookup-insert "model" k raw obj) h)
                (faithful.0 (insert "model" raw obj)),
          )
  ]

  or_as_sent-Renamed :
      (to : String) (obj : List (String × Member)) (o body : Option Raw)
      → Renamed to obj o
      → Renamed to obj (or_as_sent codec o body)
  or_as_sent-Renamed to obj none body h = absurd h.2
  or_as_sent-Renamed to obj (some b) body h = h

  abbrev pub Unnamed : Option ModelSnapshot → String → Type 0
  Unnamed none model = Unit
  Unnamed (some s) model = (s.forward_model ≡ "") ⊎ (s.forward_model ≡ model)

  abbrev pub Named : Option ModelSnapshot → String → List (String × Member) → Option Raw → Type 0
  Named none model obj out = ⊥
  Named (some s) model obj out =
      (s.forward_model ≢ "") × (s.forward_model ≢ model) × Renamed s.forward_model obj out

  rewritten_for-cases :
      (model : String) (snap : Option ModelSnapshot) (body : Raw) (obj : List (String × Member))
      → codec.decode body ≡ some obj
      → let out = rewritten_for codec model snap (some body) in
        Named snap model obj out ⊎ ((out ≡ some body) × Unnamed snap model)
  unfolding rewrite_model_field
  rewritten_for-cases model none body obj e = inr (refl, tt)
  rewritten_for-cases model (some s) body obj e =
      let unnamed = eq_iff s.forward_model "" in
      let same = eq_iff s.forward_model model in
      elim (Bool-cases (not (str_eq s.forward_model "") && not (str_eq s.forward_model model))) [
        | inl b ↦ simp b (
            inl (
              λ a. ground (arith, b, a, unnamed),
              λ a. ground (arith, b, a, same),
              or_as_sent-Renamed s.forward_model obj
                  (rewrite_model_field codec (some body) s.forward_model) (some body)
                  (rewrite-Renamed body s.forward_model obj e),
            ))
        | inr b ↦ simp b (inr (refl, ground (arith, b, unnamed, same)))
      ]

  -- For a faithful codec of JSON, a forwarded body that is an object names the model that the cache says to
  -- forward as, if there is such a name other than the caller's, and has every other member as the caller
  -- sent it; otherwise it is the caller's.
  pub outgoing_body-cases :
      (cache : ModelCache) (model : String) (body : Raw) (obj : List (String × Member))
      → codec.decode body ≡ some obj
      → let out = outgoing_body codec cache model (some body) in
        Named (get cache model) model obj out
        ⊎ ((out ≡ some body) × Unnamed (get cache model) model)
  unfolding outgoing_body
  outgoing_body-cases cache model body obj e =
      rewritten_for-cases model (get cache model) body obj e

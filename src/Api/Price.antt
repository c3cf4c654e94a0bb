-- ===== src/Api/Price.antt =====
-- How a Price is read from JSON and written: UnmarshalJSON and MarshalJSON of
-- api/squall/v1alpha1/price.go. What encoding/json makes of a text is an argument.
use squall.Common.{
  true, Option, none, some, String, ◌≡◌, refl, subst, inl, inr, arith, str_eq, eq_iff,
  if◌then◌else◌, starts_with, trim_space, Bool-cases,
}

-- encoding/json on texts: the text of a JSON string, `none` for one that is malformed, and back.
pub record TextCodec : Type 0 where
  pub unquote : String → Option String
  pub quote : String → String

abbrev unquoted_or : String → Option String → String
unquoted_or raw none = raw
unquoted_or raw (some text) = text

-- UnmarshalJSON of the given JSON into a Price.
unfoldable pub unmarshal : TextCodec → String → String → String
unfolding trim_space
unmarshal codec json price =
    let s = trim_space json in
    if str_eq s "null"
    then price
    else if starts_with s "\""
    then unquoted_or s (codec.unquote json)
    else s

-- MarshalJSON.
unfoldable pub marshal : TextCodec → String → String
marshal codec price = codec.quote price

-- What is documented of a JSON string: it stands in quotes, and reads as the text that was written.
abbrev pub IsFaithful : TextCodec → Type 0
IsFaithful codec =
    (s : String)
    → (starts_with (codec.quote s) "\"" ≡ true)
      × (trim_space (codec.quote s) ≡ codec.quote s)
      × (codec.unquote (codec.quote s) ≡ some s)

-- A price that is written and read again is spelled as it was, whatever it is read into.
pub unmarshal-marshal :
    (codec : TextCodec)
    → IsFaithful codec
    → (price before : String) → unmarshal codec (marshal codec price) before ≡ price
unfolding unmarshal marshal
unmarshal-marshal codec h price before =
    let (q, t, u) = h price in
    elim (Bool-cases (str_eq (codec.quote price) "null")) [
      | inl n ↦
          let e : codec.quote price ≡ "null" =
            ground (arith, n, eq_iff (codec.quote price) "null") in
          let x = subst (λ k. starts_with k "\"" ≡ true) e q in ground (arith, x)
      | inr n ↦ rw t (rw (n, q, u) refl)
    ]

-- ===== src/Controller/Secrets/Resolve.antt =====
-- What resolveEnv gives for each name.
use squall.Common.{
  refl, ◌<◌, ◌≡◌, ◌≢◌, ◌↔◌, Option, none, some, String, List, [], ◌∷◌, arith, lookup, insert,
  str_eq, eq_iff, Option-cases, All, lookup-insert, inl, inr, if◌then◌else◌,
}
use squall.Dstack.{Run}
use squall.Controller.Phase.{Action}
use squall.Api.{Model, ModelSpec, SecretKeyRef}
use squall.Controller.Secrets.{
  KeyAnswers, apply_env_for, wake_env, key_or_current, ensure_ssh_key, Secrets, secret_value,
  add_secrets, resolve_env, data_value,
}

-- Each name of spec.secretEnv is no name of spec.env, and its Secret has the key that it asks for.
abbrev pub IsResolvable : Secrets → List (String × String) → String × SecretKeyRef → Type 0
IsResolvable secrets env r =
    (lookup r.0 env ≡ none) × (data_value (secrets r.1.name) r.1.key ≢ none)

-- The value that a name has: its secret's where it is a name of the references.
abbrev pub value_of :
    Secrets → List (String × String) → List (String × SecretKeyRef) → String → Option String
value_of secrets out [] k = lookup k out
value_of secrets out ((name, ref) ∷ refs) k =
    let rest = value_of secrets out refs k in
    if str_eq name k then data_value (secrets ref.name) ref.key else rest

abbrev Fresh : String → List (String × SecretKeyRef) → Type 0
Fresh name [] = Unit
Fresh name ((n, ref) ∷ refs) = (n ≢ name) × Fresh name refs

-- The names of a map are distinct.
abbrev pub IsMap : List (String × SecretKeyRef) → Type 0
IsMap [] = Unit
IsMap ((name, ref) ∷ refs) = Fresh name refs × IsMap refs

secret_value-some_iff :
    (secrets : Secrets) (env : List (String × String)) (name : String) (ref : SecretKeyRef)
    → (secret_value secrets env name ref ≢ none) ↔ IsResolvable secrets env (name, ref)
secret_value-some_iff secrets env name ref = elim (Option-cases (lookup name env)) [
  | inl e ↦ rw e (ground arith)
  | inr (v, e) ↦ rw e (ground arith)
]

IsResolvable-iff :
    (secrets : Secrets) (env : List (String × String)) (refs : List (String × SecretKeyRef))
    (out : List (String × String))
    → (add_secrets secrets env refs out ≢ none) ↔ All (IsResolvable secrets env) refs
unfolding add_secrets
IsResolvable-iff secrets env [] out = ground arith
IsResolvable-iff secrets env ((name, ref) ∷ refs) out =
    let one = secret_value-some_iff secrets env name ref in
    elim (Option-cases (secret_value secrets env name ref)) [
      | inl e ↦ let one' = rw e at one in rw (e, add_secrets) (ground (arith, one'))
      | inr (v, e) ↦
          let one' = rw e at one in
          rw (e, add_secrets)
            (ground (arith, one', IsResolvable-iff secrets env refs (insert name v out)))
    ]

-- A name that the references do not have keeps the value that it was given.
value_of-insert :
    (secrets : Secrets) (refs : List (String × SecretKeyRef)) (out : List (String × String))
    (name v k : String)
    → Fresh name refs
    → value_of secrets (insert name v out) refs k
      ≡ (if str_eq name k then some v else value_of secrets out refs k)
value_of-insert secrets [] out name v k f = lookup-insert name k v out
value_of-insert secrets ((n, ref) ∷ refs) out name v k f =
    ground (arith, eq_iff n k, eq_iff name k, f, value_of-insert secrets refs out name v k f.1)

data_of-secret_value :
    (secrets : Secrets) (env : List (String × String)) (name v : String) (ref : SecretKeyRef)
    → secret_value secrets env name ref ≡ some v
    → data_value (secrets ref.name) ref.key ≡ some v
data_of-secret_value secrets env name v ref e = ground (arith, e)

lookup-add_secrets :
    (secrets : Secrets) (env : List (String × String)) (refs : List (String × SecretKeyRef))
    (out res : List (String × String)) (k : String)
    → IsMap refs
    → add_secrets secrets env refs out ≡ some res
    → lookup k res ≡ value_of secrets out refs k
unfolding add_secrets
lookup-add_secrets secrets env [] out res k m e = cc
lookup-add_secrets secrets env ((name, ref) ∷ refs) out res k m e =
    elim (Option-cases (secret_value secrets env name ref)) [
      | inl n ↦ let e' = rw (n, add_secrets) at e in ground (arith, e')
      | inr (v, n) ↦
          let e' = rw (n, add_secrets) at e in
          ground (
            arith,
            eq_iff name k,
            data_of-secret_value secrets env name v ref n,
            value_of-insert secrets refs out name v k m.0,
            lookup-add_secrets secrets env refs (insert name v out) res k m.1 e',
          )
    ]

-- Where the names of spec.secretEnv are distinct, the env of a wake is resolved exactly if no name is set in both maps and each Secret that
-- spec.secretEnv refers to can be read and has its key. Then each name of spec.secretEnv has the value
-- of its Secret, and each other name its value in spec.env.
pub resolve_env_iff :
    (secrets : Secrets) (spec : ModelSpec)
    → IsMap spec.secret_env
    → ((resolve_env secrets spec ≢ none) ↔ All (IsResolvable secrets spec.env) spec.secret_env)
      × ((res : List (String × String))
          → resolve_env secrets spec ≡ some res
          → (k : String) → lookup k res ≡ value_of secrets spec.env spec.secret_env k)
unfolding resolve_env
resolve_env_iff secrets spec m = (
  IsResolvable-iff secrets spec.env spec.secret_env spec.env,
  λ res e k. lookup-add_secrets secrets spec.env spec.secret_env spec.env res k m e,
)

pub apply_env_for-wake :
    (secrets : Secrets) (keys : KeyAnswers) (m : Model) (action : Action)
    → 0 < action.replicas
    → apply_env_for secrets keys m action
      ≡ wake_env
          (resolve_env secrets m.spec)
          (key_or_current (ensure_ssh_key keys) action.current)
          m
unfolding apply_env_for
apply_env_for-wake secrets keys m action p = ground (arith, p)

pub apply_env_for-flip :
    (secrets : Secrets) (keys : KeyAnswers) (m : Model) (action : Action) (run : Run)
    → action.replicas ≡ 0
    → action.current ≡ some run
    → apply_env_for secrets keys m action ≡ some (run.env, run.ssh_key_pub)
unfolding apply_env_for
apply_env_for-flip secrets keys m action run z c = rw (z, c) refl

-- ===== src/Controller/Secrets.antt =====
-- The credentials that an Apply sends: resolveEnv of internal/controller/squall/secretenv.go,
-- EnsureSSHKey of sshkey.go and applyEnvFor of model_controller.go. What the API server answers is an
-- argument, as is the pair of keys that ssh-keygen's libraries make. Go maps are association lists,
-- and which of several faulty names an error speaks of is left out.
pub mod Resolve
use squall.Common.{
  ℕ, Bool, true, false, Option, none, some, String, List, [], ◌∷◌, ◌&&◌, ◌==◌, str_eq,
  if◌then◌else◌, lookup, insert, is_none,
}
use squall.Api.{Model, ModelSpec, SecretKeyRef}
use squall.Dstack.{Run}
use squall.Controller.Ownership.{with_model_uid}
use squall.Controller.Phase.{Action}

-- The secrets of the Model's namespace: the data under a name, and `none` where the read fails.
abbrev pub Secrets : Type 0
Secrets = String → Option (List (String × String))

abbrev pub data_value : Option (List (String × String)) → String → Option String
data_value none key = none
data_value (some entries) key = lookup key entries

-- One round of the loop over the names.
abbrev pub secret_value : Secrets → List (String × String) → String → SecretKeyRef → Option String
secret_value secrets env name ref =
    if is_none (lookup name env) then data_value (secrets ref.name) ref.key else none

add_secrets :
    Secrets
    → List (String × String)
    → List (String × SecretKeyRef)
    → List (String × String)
    → Option (List (String × String))
add_secrets secrets env [] out = some out
add_secrets secrets env ((name, ref) ∷ refs) out = elim (secret_value secrets env name ref) [
  | none ↦ none
  | some v ↦ add_secrets secrets env refs (insert name v out)
]

-- resolveEnv.
unfoldable pub resolve_env : Secrets → ModelSpec → Option (List (String × String))
unfolding add_secrets
resolve_env secrets spec = add_secrets secrets spec.env spec.secret_env spec.env

-- A read of the key's Secret: its public half, if it has one.
pub data KeyRead : Type 0 where
  key_found : Option String → KeyRead
  key_missing key_unreadable : KeyRead

pub data KeyWrite : Type 0 where
  key_created key_exists key_refused : KeyWrite

abbrev public_half : KeyRead → String
public_half (key_found (some pub_key)) = pub_key
public_half (key_found none) = ""
public_half key_missing = ""
public_half key_unreadable = ""

abbrev after_create : KeyWrite → String → KeyRead → String
after_create key_created generated again = generated
after_create key_exists generated again = public_half again
after_create key_refused generated again = ""

-- EnsureSSHKey: the first read, the key that is generated, the Create, and the read after a lost race.
pub record KeyAnswers : Type 0 where
  pub first : KeyRead
  pub generated : Option String
  pub write : KeyWrite
  pub again : KeyRead

abbrev mint_key : Option String → KeyWrite → KeyRead → String
mint_key none write again = ""
mint_key (some generated) write again = after_create write generated again

abbrev key_after_read : KeyRead → KeyAnswers → String
key_after_read (key_found half) a = public_half (key_found half)
key_after_read key_missing a = mint_key a.generated a.write a.again
key_after_read key_unreadable a = ""

unfoldable pub ensure_ssh_key : KeyAnswers → String
ensure_ssh_key a = key_after_read a.first a

abbrev pub key_or_current : String → Option Run → String
key_or_current key none = key
key_or_current key (some run) = if str_eq key "" then run.ssh_key_pub else key

abbrev pub wake_env :
    Option (List (String × String)) → String → Model → Option (List (String × String) × String)
wake_env none key m = none
wake_env (some env) key m = some (with_model_uid env m, key)

abbrev sleep_env : Option Run → Model → List (String × String) × String
sleep_env none m = (with_model_uid [] m, "")
sleep_env (some run) m = (run.env, run.ssh_key_pub)

-- applyEnvFor: the env and the key, or an error.
unfoldable pub apply_env_for :
    Secrets → KeyAnswers → Model → Action → Option (List (String × String) × String)
unfolding resolve_env ensure_ssh_key
apply_env_for secrets keys m action =
    if action.replicas == 0
    then some (sleep_env action.current m)
    else wake_env (resolve_env secrets m.spec) (key_or_current (ensure_ssh_key keys) action.current)
        m

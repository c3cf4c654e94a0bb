-- ===== src/Controller/Ownership/Identity.antt =====
-- How a Model and its run find each other, by runname.go and ownership.go.
use Prim.Native.String.{◌++◌ as ◌++ₛ◌}
use Prim.Native.String.append
use text.Mathlib.TextLemmas.{append_assoc}
use squall.Common.{
  ℕ, Option, refl, ◌⊎◌, ◌≡◌, ◌≢◌, ap, ◌∙◌, true, false, some, String, List, arith, str_eq, contains,
  eq_iff, eq_refl, lookup, lookup-insert,
}
use squall.Api.{Model}
use squall.Api.Conditions.{ConditionOps}
use squall.Dstack.{Run}
use squall.Controller.Ownership.{
  reconcile_run_ownership, recorded_uid, adopt, RunOwnership, unmarked, from_another_incarnation,
  dstack_run_name, run_name_for, run_names_for, classify_run_ownership, with_model_uid,
  owned_by_this_model, model_uid_env_key,
}

-- The name that a Model's run is filed under is always among the names that the reaper spares.
pub run_name_for-owned : (m : Model) → contains (run_name_for m) (run_names_for m) ≡ true
unfolding run_name_for run_names_for
run_name_for-owned m = ground (
  arith,
  eq_iff (dstack_run_name m) m.status.run_name,
  eq_iff m.status.run_name (dstack_run_name m),
  eq_refl m.status.run_name,
  eq_refl (dstack_run_name m),
)

-- A run that was started with a Model's stamped env is recognised as that Model's, whatever env the
-- Model asked for, if its UID is not empty.
classify-with_model_uid :
    (m : Model) (run : Run) (env : List (String × String))
    → m.uid ≢ ""
    → run.env ≡ with_model_uid env m
    → classify_run_ownership (some run) m ≡ owned_by_this_model
unfolding classify_run_ownership with_model_uid
classify-with_model_uid m run env h e =
    let found : lookup model_uid_env_key run.env ≡ some m.uid =
      ap (lookup model_uid_env_key) e
      ∙ lookup-insert model_uid_env_key model_uid_env_key m.uid env in
    ground (arith, found, eq_iff m.uid "", eq_refl m.uid)

ne-empty : (s : String) → s ≢ "" → str_eq s "" ≡ false
ne-empty s h = ground (arith, eq_iff s "")

append-dash-ne : (s b : String) → str_eq (s ++ₛ ("-" ++ₛ b)) "" ≡ false
append-dash-ne String.[] b = rw (append.nil, append.cons) (ne-empty _ (λ e. cc))
append-dash-ne (String.◌∷◌ c s) b = rw append.cons (ne-empty _ (λ e. cc))

-- Two Models in different namespaces share a run name where a dash can be read as belonging to
-- either part: "a-b"/"c" and "a"/"b-c" both drive the run "a-b-c".
pub dstack_run_name_collision :
    (m n : Model) (a b c : String)
    → a ≢ ""
    → m.namespace ≡ a ++ₛ ("-" ++ₛ b)
    → m.name ≡ c
    → n.namespace ≡ a
    → n.name ≡ b ++ₛ ("-" ++ₛ c)
    → dstack_run_name m ≡ dstack_run_name n
unfolding dstack_run_name
dstack_run_name_collision m n a b c h em em' en en' =
    simp (em, em', en, en', append-dash-ne a b, ne-empty a h, append_assoc)

run_name-adopt :
    (meta : ConditionOps) (wall : ℕ) (o : RunOwnership) (recorded : String) (m : Model)
    → (adopt meta wall o recorded m).run_name ≡ m.status.run_name
run_name-adopt meta wall owned_by_this_model recorded m = refl
run_name-adopt meta wall unmarked recorded m = refl
run_name-adopt meta wall from_another_incarnation recorded m = refl

pub run_name-reconcile_run_ownership :
    (meta : ConditionOps) (wall : ℕ) (m : Model) (run : Option Run)
    → (reconcile_run_ownership meta wall m run).run_name ≡ m.status.run_name
unfolding reconcile_run_ownership
run_name-reconcile_run_ownership meta wall m run =
    run_name-adopt meta wall (classify_run_ownership run m) (recorded_uid run) m

pub run_name_for-kept :
    (m n : Model)
    → n.namespace ≡ m.namespace
    → n.name ≡ m.name
    → (n.status.run_name ≡ m.status.run_name) ⊎ (n.status.run_name ≡ run_name_for m)
    → run_name_for n ≡ run_name_for m
unfolding run_name_for dstack_run_name
run_name_for-kept m n s e r = ground (
  arith,
  s,
  e,
  r,
  eq_iff m.status.run_name "",
  eq_iff m.namespace "",
  eq_iff m.name "",
  eq_iff n.status.run_name "",
  eq_iff n.namespace "",
)

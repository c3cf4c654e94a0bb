-- ===== src/Api/Conditions.antt =====
-- The functions of k8s.io/apimachinery's meta package on a list of conditions, as an interface with
-- the behaviour that its documentation states, and one implementation that meets it. `now` of
-- `set` is the wall clock that SetStatusCondition reads.
use squall.Common.{
  ℕ, ◌≡◌, Bool, true, false, Option, none, some, List, [], ◌∷◌, arith, ◌==◌, if◌then◌else◌,
}
use squall.Api.{
  Condition, ConditionType, ConditionStatus, schedulable, provisioning, served_model_verified,
  healthy, is_true, is_false, is_unknown,
}

abbrev pub same_type : ConditionType → ConditionType → Bool
same_type schedulable schedulable = true
same_type provisioning provisioning = true
same_type served_model_verified served_model_verified = true
same_type healthy healthy = true
same_type _ _ = false

abbrev pub same_status : ConditionStatus → ConditionStatus → Bool
same_status is_true is_true = true
same_status is_false is_false = true
same_status is_unknown is_unknown = true
same_status _ _ = false

-- The condition that SetStatusCondition leaves: the new one, whose transition time is kept where an
-- existing one has the new status, and is the clock's where the new one brings none.
abbrev pub stamped : ℕ → Option Condition → Condition → Condition
stamped now none c =
    if c.last_transition_time == 0 then record c { last_transition_time = now } else c
stamped now (some old) c =
    if same_status old.status c.status
    then record c { last_transition_time = old.last_transition_time }
    else if c.last_transition_time == 0
    then record c { last_transition_time = now }
    else c

pub record ConditionOps : Type 0 where
  pub find : List Condition → ConditionType → Option Condition
  pub set : ℕ → List Condition → Condition → List Condition
  pub remove : List Condition → ConditionType → List Condition
  pub find-set :
      (now : ℕ) (cs : List Condition) (c : Condition) (t : ConditionType)
      → find (set now cs c) t
        ≡ (if same_type c.type t then some (stamped now (find cs c.type) c) else find cs t)
  pub find-remove :
      (cs : List Condition) (t u : ConditionType)
      → find (remove cs t) u ≡ (if same_type t u then none else find cs u)

unfoldable pub find_condition : List Condition → ConditionType → Option Condition
find_condition [] t = none
find_condition (c ∷ cs) t = if same_type c.type t then some c else find_condition cs t

unfoldable pub remove_condition : List Condition → ConditionType → List Condition
remove_condition [] t = []
remove_condition (c ∷ cs) t =
    let rest = remove_condition cs t in if same_type c.type t then rest else c ∷ rest

unfoldable pub set_condition : ℕ → List Condition → Condition → List Condition
unfolding find_condition remove_condition
set_condition now cs c = stamped now (find_condition cs c.type) c ∷ remove_condition cs c.type

type-stamped :
    (now : ℕ) (old : Option Condition) (c : Condition) → (stamped now old c).type ≡ c.type
type-stamped now none c = ground arith
type-stamped now (some old) c = ground arith

pub find-remove_condition :
    (cs : List Condition) (t u : ConditionType)
    → find_condition (remove_condition cs t) u
      ≡ (if same_type t u then none else find_condition cs u)
unfolding find_condition remove_condition
find-remove_condition [] t u = ground arith
find-remove_condition (c ∷ cs) t u = ground (arith, find-remove_condition cs t u)

pub find-set_condition :
    (now : ℕ) (cs : List Condition) (c : Condition) (t : ConditionType)
    → find_condition (set_condition now cs c) t ≡ (
        if same_type c.type t
        then some (stamped now (find_condition cs c.type) c)
        else find_condition cs t)
unfolding set_condition
find-set_condition now cs c t =
    ground (arith, type-stamped now (find_condition cs c.type) c, find-remove_condition cs c.type t)

-- An instance, for evaluation.
abbrev pub condition_list : ConditionOps
condition_list = record {
  find = find_condition;
  set = set_condition;
  remove = remove_condition;
  find-set = find-set_condition;
  find-remove = find-remove_condition;
}

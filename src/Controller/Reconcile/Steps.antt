-- ===== src/Controller/Reconcile/Steps.antt =====
-- How a pass of Reconcile comes to an Apply.
use squall.Common.{
  ℕ, ◌≡◌, ◌⊎◌, inl, inr, refl, sym, Bool, true, false, some, String, List, [], ◌∷◌, ◌++◌, arith,
  Elem, All, ap, Bool-cases, Option-cases, map,
}
use squall.Api.{Model, ModelStatus}
use squall.Api.Conditions.{ConditionOps}
use squall.Controller.Phase.{Observed, unset_time}
use squall.Controller.Observe.{observe}
use squall.Controller.Schedulable.{Checked}
use squall.Controller.Secrets.{apply_env_for}
use squall.Controller.Refusal.{cannot_override_run, other_error, recover_from_override_refusal}
use squall.Controller.Finalizer.{Call as DrainCall}
use squall.Dstack.{ApplyRequest}
use squall.Controller.World.{
  World, Applied, applied, apply_failed, Call, apply_run, stop_run, patch_status, drain_call,
}
use squall.Controller.Actuation.{after_apply}
use squall.Controller.Opening.{decided}
use squall.Controller.Closing.{closing_status}
use squall.Controller.Reconcile.{request, finish, act, reconcile, live_pass, applying, after_answer}

-- The pass asked dstack for the run that req describes, after it observed the run as `observed`.
pub record Asks (meta : ConditionOps) (w : World) (m : Model) (now : ℕ) (req : ApplyRequest)
    : Type 0 where
  pub is_live : unset_time m.deletion_timestamp ≡ true
  pub has_finalizer : m.has_finalizer ≡ true
  pub observed : Observed
  pub is_observed : observe w.get w.activity m.spec now ≡ some observed
  pub applies : (decided meta w m observed now).action.apply ≡ true
  pub env : List (String × String)
  pub key : String
  pub resolved :
      apply_env_for w.secrets w.keys m (decided meta w m observed now).action ≡ some (env, key)
  pub is_request : req ≡ request w.seconds m (decided meta w m observed now).action env key

Elem-append : {A : Type 0} (xs ys : List A) (x : A) → Elem x (xs ++ ys) → Elem x xs ⊎ Elem x ys
Elem-append [] ys x i = inr i
Elem-append (y ∷ xs) ys x (inl e) = inl (inl e)
Elem-append (y ∷ xs) ys x (inr i) = elim (Elem-append xs ys x i) [
  | inl a ↦ inl (inr a)
  | inr b ↦ inr b
]

drains-no_apply :
    (req : ApplyRequest) (cs : List DrainCall) → Elem (apply_run req) (map drain_call cs) → ⊥
drains-no_apply req [] i = i
drains-no_apply req (c ∷ cs) (inl e) = ground (arith, e)
drains-no_apply req (c ∷ cs) (inr i) = drains-no_apply req cs i

finish-calls :
    (meta : ConditionOps) (w : World) (m : Model) (observed : Observed) (c : Checked)
    (status : ModelStatus) (now : ℕ) (calls : List Call)
    → (finish meta w m observed c status now calls).calls
      ≡ (calls ++ (patch_status (closing_status meta w m observed c status now) ∷ []))
unfolding finish
finish-calls meta w m observed c status now calls = ground arith

abbrev other : Call → Bool
other (apply_run r) = false
other _ = true

other-apply : (c : Call) (r : ApplyRequest) → other c ≡ true → (apply_run r ≡ c) → ⊥
other-apply c r o e = ground (arith, o, sym e)

abbrev sent_request : ApplyRequest → Call → ApplyRequest
sent_request d (apply_run r) = r
sent_request d _ = d

apply_injective : (r s : ApplyRequest) → apply_run r ≡ apply_run s → r ≡ s
apply_injective r s e = ap (sent_request r) e

first_only :
    (cs : List Call) (req sent : ApplyRequest)
    → All (λ c. other c ≡ true) cs
    → Elem (apply_run req) (apply_run sent ∷ cs)
    → req ≡ sent
first_only cs req sent o (inl e) = apply_injective req sent e
first_only [] req sent o (inr i) = absurd i
first_only (c ∷ cs) req sent o (inr (inl e)) = absurd (other-apply c req o.0 e)
first_only (c ∷ cs) req sent o (inr (inr i)) = first_only cs req sent o.1 (inr i)

-- The calls of a pass that made the Apply begin with it; no other is among the rest.
after_answer-apply :
    (meta : ConditionOps) (w : World) (m : Model) (observed : Observed) (c : Checked) (now : ℕ)
    (a : Applied) (req sent : ApplyRequest)
    → Elem (apply_run req) (after_answer meta w m observed c now (apply_run sent ∷ []) a).calls
    → req ≡ sent
unfolding after_answer
after_answer-apply meta w m observed c now (applied run) req sent i =
    let i' =
      rw
        (finish-calls meta w m observed c (after_apply meta w.wall c.status c.action run now) now
          (apply_run sent ∷ []))
        at i in
    first_only (patch_status _ ∷ []) req sent (refl, tt) i'
after_answer-apply meta w m observed c now (apply_failed other_error) req sent i =
    first_only [] req sent tt i
after_answer-apply meta w m observed c now (apply_failed cannot_override_run) req sent i =
    let r = recover_from_override_refusal meta w.wall c.status c.action cannot_override_run in
    elim (Bool-cases r.0) [
      | inl e ↦
          let i' = rw (e, after_answer) at i in
          first_only (stop_run _ ∷ patch_status _ ∷ []) req sent (refl, (refl, tt)) i'
      | inr e ↦
          let i' = rw (e, after_answer) at i in
          first_only (patch_status _ ∷ []) req sent (refl, tt) i'
    ]

finish-no_apply :
    (meta : ConditionOps) (w : World) (m : Model) (observed : Observed) (c : Checked) (now : ℕ)
    (req : ApplyRequest)
    → Elem (apply_run req) (finish meta w m observed c c.status now []).calls
    → ⊥
finish-no_apply meta w m observed c now req i =
    let i' = rw (finish-calls meta w m observed c c.status now []) at i in ground (arith, i')

pub reconcile-live :
    (meta : ConditionOps) (w : World) (m : Model) (now : ℕ)
    → unset_time m.deletion_timestamp ≡ true
    → m.has_finalizer ≡ true
    → reconcile meta w m now ≡ live_pass meta w m now (observe w.get w.activity m.spec now)
unfolding reconcile
reconcile-live meta w m now e f = simp (e, f)

pub act-applying :
    (meta : ConditionOps) (w : World) (m : Model) (observed : Observed) (c : Checked) (now : ℕ)
    → c.action.apply ≡ true
    → act meta w m observed c now
      ≡ applying meta w m observed c now (apply_env_for w.secrets w.keys m c.action)
unfolding act
act-applying meta w m observed c now e = simp e

pub act-idle :
    (meta : ConditionOps) (w : World) (m : Model) (observed : Observed) (c : Checked) (now : ℕ)
    → c.action.apply ≡ false
    → act meta w m observed c now ≡ finish meta w m observed c c.status now []
unfolding act
act-idle meta w m observed c now e = simp e

finalizing-no_apply :
    (meta : ConditionOps) (w : World) (m : Model) (now : ℕ) (req : ApplyRequest)
    → unset_time m.deletion_timestamp ≡ true
    → m.has_finalizer ≡ false
    → Elem (apply_run req) (reconcile meta w m now).calls
    → ⊥
unfolding reconcile
finalizing-no_apply meta w m now req e f i = elim (Bool-cases w.update_ok) [
  | inl u ↦ let i' = rw (e, f, u, reconcile) at i in ground (arith, i')
  | inr u ↦ let i' = rw (e, f, u, reconcile) at i in ground (arith, i')
]

-- An observed run and a Decide that applied.
act-Asks :
    (meta : ConditionOps) (w : World) (m : Model) (now : ℕ) (req : ApplyRequest)
    (observed : Observed)
    → unset_time m.deletion_timestamp ≡ true
    → m.has_finalizer ≡ true
    → observe w.get w.activity m.spec now ≡ some observed
    → Elem (apply_run req) (act meta w m observed (decided meta w m observed now) now).calls
    → Asks meta w m now req
unfolding act decided
act-Asks meta w m now req observed e f o i =
    let c = decided meta w m observed now in
    elim (Bool-cases c.action.apply) [
      | inr a ↦ let i' = rw (a, act) at i in absurd (finish-no_apply meta w m observed c now req i')
      | inl a ↦ elim (Option-cases (apply_env_for w.secrets w.keys m c.action)) [
        | inl n ↦ let i' = rw (a, n, act) at i in absurd i'
        | inr ((env, key), n) ↦
            let i' = rw (a, n, act) at i in
            record {
              is_live = e;
              has_finalizer = f;
              observed = observed;
              is_observed = o;
              applies = a;
              env = env;
              key = key;
              resolved = n;
              is_request =
                  after_answer-apply meta w m observed c now w.apply req
                    (request w.seconds m c.action env key) i';
            }
      ]
    ]

live_pass-Asks :
    (meta : ConditionOps) (w : World) (m : Model) (now : ℕ) (req : ApplyRequest)
    → unset_time m.deletion_timestamp ≡ true
    → m.has_finalizer ≡ true
    → Elem (apply_run req) (live_pass meta w m now (observe w.get w.activity m.spec now)).calls
    → Asks meta w m now req
unfolding live_pass
live_pass-Asks meta w m now req e f i = elim (Option-cases (observe w.get w.activity m.spec now)) [
  | inl n ↦ let i' = rw n at i in absurd i'
  | inr (observed, n) ↦
      let i' = rw (n, live_pass) at i in act-Asks meta w m now req observed e f n i'
]

-- An Apply that a pass makes is the one that Decide asked for.
pub Asks-of :
    (meta : ConditionOps) (w : World) (m : Model) (now : ℕ) (req : ApplyRequest)
    → Elem (apply_run req) (reconcile meta w m now).calls
    → Asks meta w m now req
unfolding reconcile
Asks-of meta w m now req i = elim (Bool-cases (unset_time m.deletion_timestamp)) [
  | inr e ↦ let i' = rw (e, reconcile) at i in absurd (drains-no_apply req _ i')
  | inl e ↦ elim (Bool-cases m.has_finalizer) [
    | inr f ↦ absurd (finalizing-no_apply meta w m now req e f i)
    | inl f ↦
        let i' = rw (reconcile-live meta w m now e f) at i in live_pass-Asks meta w m now req e f i'
  ]
]

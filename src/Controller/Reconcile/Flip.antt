-- ===== src/Controller/Reconcile/Flip.antt =====
-- What a pass that puts a Model to sleep sends over the wire: reconciler and client together.
use squall.Common.{
  ℕ, ◌≡◌, ap, sym, ◌∙◌, String, Option, none, some, Holds, Elem, ltb, subst, Bool-cases, inl, inr,
}
use squall.Api.{ModelSpec, Model}
use squall.Api.Conditions.{ConditionOps}
use squall.Dstack.{ApplyRequest, Run, found, is_terminal}
use squall.Dstack.Wire.{RunWire, run_spec, run_of_wire, dstack_seconds_ptr, dstack_duration}
use squall.Dstack.Wire.Echo.{IsInRangeIfSet, max_text, idle_duration-echo, max_duration-echo}
use squall.Controller.Phase.{Observed, ActivityEvidence}
use squall.Controller.Phase.FailSafe.{Durations}
use squall.Controller.Observe.{observe}
use squall.Controller.World.{World, apply_run}
use squall.Controller.Reconcile.{reconcile}
use squall.Controller.Reconcile.Apply.{IsVerbatim, reconcile_flips}

abbrev run_in : Option Observed → Option Run
run_in none = none
run_in (some o) = o.run

-- The run that is observed is the one that dstack answered with.
observe-run :
    (run : Run) (activity : Option ActivityEvidence) (spec : ModelSpec) (now : ℕ) (o : Observed)
    (P : Run → Type 0)
    → observe (found run) activity spec now ≡ some o
    → Holds P o.run
    → P run
unfolding observe
observe-run run activity spec now o P e h = elim (Bool-cases (is_terminal run)) [
  | inl t ↦ let e' = rw (t, observe) at e in elim (subst (Holds P) (sym (ap run_in e')) h) [ ]
  | inr t ↦ elim (Bool-cases (ltb 0 run.replicas)) [
    | inl u ↦ let e' = rw (t, u, observe) at e in subst (Holds P) (sym (ap run_in e')) h
    | inr u ↦ let e' = rw (t, u, observe) at e in subst (Holds P) (sym (ap run_in e')) h
  ]
]

verbatim-echo :
    (decimal : ℕ → String) (rw : RunWire) (req : ApplyRequest)
    → IsVerbatim req (run_of_wire rw)
    → IsInRangeIfSet rw.idle_duration
    → IsInRangeIfSet rw.max_duration
    → let spec = run_spec decimal req in
      (spec.ssh_key_pub ≡ rw.ssh_key_pub)
      × (spec.configuration.env ≡ rw.env)
      × (spec.configuration.idle_duration ≡ rw.idle_duration)
      × (spec.configuration.max_duration ≡ max_text decimal rw.max_duration)
unfolding run_spec run_of_wire
verbatim-echo decimal rw req v i m = (
  v.key,
  v.env,
  ap dstack_seconds_ptr v.idle ∙ idle_duration-echo rw.idle_duration i,
  ap (dstack_duration decimal) v.hard ∙ max_duration-echo decimal rw.max_duration m,
)

-- For durations within an int64: when a pass asks dstack for no replica, what goes over the wire has the
-- env, the key and the idle_duration that dstack has stored for the run, absent or 0 included, and its
-- max_duration in whole seconds, if the stored durations are in range or absent.
pub flip_echoes :
    (meta : ConditionOps) (w : World) (m : Model) (now : ℕ) (ds : Durations m.spec)
    (req : ApplyRequest) (decimal : ℕ → String) (rw : RunWire)
    → Elem (apply_run req) (reconcile meta w m now).calls
    → req.replicas ≡ 0
    → w.get ≡ found (run_of_wire rw)
    → IsInRangeIfSet rw.idle_duration
    → IsInRangeIfSet rw.max_duration
    → let spec = run_spec decimal req in
      (spec.ssh_key_pub ≡ rw.ssh_key_pub)
      × (spec.configuration.env ≡ rw.env)
      × (spec.configuration.idle_duration ≡ rw.idle_duration)
      × (spec.configuration.max_duration ≡ max_text decimal rw.max_duration)
flip_echoes meta w m now ds req decimal rw i z g idle hard =
    let (o, e, j, v) = reconcile_flips meta w m now ds req i z in
    let seen = ap (λ g. observe g w.activity m.spec now) (sym g) ∙ e in
    verbatim-echo decimal rw req
      (observe-run (run_of_wire rw) w.activity m.spec now o (IsVerbatim req) seen v) idle hard

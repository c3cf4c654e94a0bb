-- ===== src/Dstack/Mock/Http/Carries.antt =====
-- The client over the fake server's HTTP surface does what the fake server does.
use squall.Common.{ℕ, ◌≡◌, refl, ap, false, Option, none, some, String, [], ◌∷◌}
use squall.Dstack.{ApplyRequest, Run as ClientRun}
use squall.Dstack.Errors.{
  decoded_list, error_resource_changed, error_cannot_override, error_other, classify_error, mark_of,
}
use squall.Dstack.Wire.{RunSpecWire, run_spec, run_of_wire, dstack_seconds_ptr}
use squall.Dstack.Http.{
  Call, get_plan, apply_plan, Reply, answered, status_error, Result, ok, err, Codec, outcome_of,
  run_with, continue, decoded,
}
use squall.Dstack.Http.Runs.{apply as client_apply, apply_spec, decode_run}
use squall.Dstack.Mock.{
  Server, Anchor, force_forbidden, resource_changed, cannot_override, not_found, delete_active_run,
  Run, Answer, granted, refused, apply,
}
use squall.Dstack.Mock.{ApplyRequest as MockRequest}
use squall.Dstack.Mock.Http.{
  PlannedSpec, Encoding, id_text, seconds_in, run_to_wire, planned_of, apply_answer, apply_with,
  with_spec, with_current, anchored, serve,
}

-- What is read of a body is what was written: the client's types name the fields that the fake writes,
-- and the fake's the fields that it reads back.
pub record IsFaithful {Raw : Type 0} (codec : Codec Raw) (enc : Encoding Raw) : Type 0 where
  pub spec_in-spec_body : (p : PlannedSpec) → enc.spec_in (enc.spec_body p) ≡ some p
  pub run_plan-plan_body : (r : Raw) → codec.run_plan (enc.plan_body r) ≡ some r
  pub run-run_body :
      (run : Run)
      → codec.run (enc.run_body (run_to_wire enc.decimal run)) ≡ some (run_to_wire enc.decimal run)
  pub current_in-run_body :
      (run : Run)
      → enc.current_in (enc.run_body (run_to_wire enc.decimal run))
        ≡ some (id_text enc.decimal run.run_id, run.deployment_num)
  pub detail-error_body :
      (msg code : String)
      → codec.detail (enc.error_body msg code)
        ≡ decoded_list (record { msg = msg; code = code } ∷ [])

abbrev pub anchor_of : Option Run → Option Anchor
anchor_of none = none
anchor_of (some run) = some (record { run_id = run.run_id; deployment_num = run.deployment_num })

-- The client's request as the fake server takes it.
abbrev pub asked : ApplyRequest → Option Run → MockRequest
asked req last = record {
  name = req.name;
  replicas = req.replicas;
  current = anchor_of last;
  force = false;
  fleet_idle_duration = 0;
  idle_duration = seconds_in (dstack_seconds_ptr req.idle_duration);
}

module _ {Raw : Type 0} (enc : Encoding Raw) where
  -- The body that the client keeps of a run.
  abbrev pub body_of : Run → Raw
  unfolding run_to_wire
  body_of run = enc.run_body (run_to_wire enc.decimal run)

  abbrev pub kept : Option Run → Option Raw
  unfolding body_of
  kept none = none
  kept (some run) = some (body_of run)

  -- The id in the run's body is the run's.
  abbrev pub IsRead : Option Run → Type 0
  IsRead none = Unit
  IsRead (some run) = enc.read_id (id_text enc.decimal run.run_id) ≡ run.run_id

module _ {Raw : Type 0} (codec : Codec Raw) (enc : Encoding Raw) where
  -- The fake server's answer as the client gives it.
  abbrev pub given : Answer → Result (ClientRun × Raw)
  unfolding body_of run_of_wire run_to_wire
  given (granted run) = ok (run_of_wire (run_to_wire enc.decimal run), body_of enc run)
  given (refused resource_changed) = err (status_error 400 error_resource_changed)
  given (refused cannot_override) = err (status_error 400 error_cannot_override)
  given (refused force_forbidden) = err (status_error 400 error_other)
  given (refused _) = err (status_error 500 error_other)

module _ {Raw : Type 0} (codec : Codec Raw) (enc : Encoding Raw) (laws : IsFaithful codec enc) where
  outcome-apply_answer :
      (a : Answer) (s : Server) (serving : Server → Call Raw → Server × Reply Raw)
      → (run_with serving
          (continue
            (outcome_of codec (apply_answer enc a))
            (λ body. decoded (decode_run codec body)))
          s)
        ≡ (s, [], given codec enc a)
  unfolding outcome_of run_with classify_error decode_run mark_of apply_answer given run_to_wire
  outcome-apply_answer (granted run) s serving = rw (laws.run-run_body run) refl
  outcome-apply_answer (refused resource_changed) s serving = rw (laws.detail-error_body _ _) refl
  outcome-apply_answer (refused cannot_override) s serving = rw (laws.detail-error_body _ _) refl
  outcome-apply_answer (refused force_forbidden) s serving = rw (laws.detail-error_body _ _) refl
  outcome-apply_answer (refused not_found) s serving = rw (laws.detail-error_body _ _) refl
  outcome-apply_answer (refused delete_active_run) s serving = rw (laws.detail-error_body _ _) refl

  planned : (ℕ → String) → ApplyRequest → PlannedSpec
  unfolding run_spec
  planned decimal req = planned_of enc (run_spec decimal req)

  -- The apply request that the client sends is one Apply of the fake server.
  serve-apply :
      (decimal : ℕ → String) (req : ApplyRequest) (last : Option Run) (s : Server) (now : ℕ)
      → IsRead enc last
      → let a = apply (asked req last) s now in
        serve enc now s (apply_plan (enc.spec_body (planned decimal req)) (kept enc last) false)
        ≡ (a.0, apply_answer enc a.1)
  unfolding serve planned run_spec with_spec with_current anchored apply_with
  serve-apply decimal req none s now known = rw (laws.spec_in-spec_body (planned decimal req)) refl
  serve-apply decimal req (some run) s now known =
      rw (laws.spec_in-spec_body (planned decimal req))
        (rw (laws.current_in-run_body run) (rw known refl))

  serve-plan :
      (decimal : ℕ → String) (req : ApplyRequest) (s : Server) (now : ℕ)
      → serve enc now s (get_plan (run_spec decimal req))
        ≡ (s, answered 200 (enc.plan_body (enc.spec_body (planned decimal req))))
  unfolding serve planned
  serve-plan decimal req s now = refl

  -- The client's two requests against any server whose first answer is a plan.
  apply_spec-answers :
      (serving : Server → Call Raw → Server × Reply Raw) (spec : RunSpecWire) (anchor : Option Raw)
      (s s' : Server) (plan raw : Raw) (a : Answer)
      → serving s (get_plan spec) ≡ (s, answered 200 plan)
      → codec.run_plan plan ≡ some raw
      → serving s (apply_plan raw anchor false) ≡ (s', apply_answer enc a)
      → let ran = run_with serving (apply_spec codec spec anchor) s in
        (ran.0 ≡ s') × (ran.2 ≡ given codec enc a)
  unfolding apply_spec run_with outcome_of classify_error
  apply_spec-answers serving spec anchor s s' plan raw a p d e =
      let t = outcome-apply_answer a s' serving in
      rw (p, run_with) (rw (d, run_with) (rw (e, run_with) (ap (λ p. p.0) t, ap (λ p. p.2) t)))

  -- An Apply of the client over HTTP, based on no run or on a run of the fake server whose
  -- id it reads back, leaves the fake server as an Apply without
  -- Force by a direct call does, and gives what that answers: the run, decoded, or the kind of its error.
  pub client_apply_carries :
      (decimal : ℕ → String) (req : ApplyRequest) (last : Option Run) (s : Server) (now : ℕ)
      → IsRead enc last
      → let a = apply (asked req last) s now in
        let ran = run_with (serve enc now) (client_apply codec decimal req (kept enc last)) s in
        (ran.0 ≡ a.0) × (ran.2 ≡ given codec enc a.1)
  unfolding client_apply
  client_apply_carries decimal req last s now known =
      let a = apply (asked req last) s now in
      let spec = enc.spec_body (planned decimal req) in
      apply_spec-answers (serve enc now) (run_spec decimal req) (kept enc last) s a.0
        (enc.plan_body spec) spec a.1 (serve-plan decimal req s now) (laws.run_plan-plan_body spec)
        (serve-apply decimal req last s now known)

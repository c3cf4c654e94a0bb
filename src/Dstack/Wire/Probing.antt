-- ===== src/Dstack/Wire/Probing.antt =====
-- The probe that is submitted and the judgement of its streaks: §6 wants evidence of readiness.
use squall.Common.{
  ℕ, ◌≡◌, ◌≢◌, refl, arith, ℤ, pos, Option, none, some, String, [], ◌∷◌, map, if◌then◌else◌, lt_dur,
  ◌<ℤ◌, eq_iff,
}
use squall.Dstack.{Probe, ApplyRequest}
use squall.Dstack.Wire.{ProbeConfigWire, probe_wire, run_spec, echoed_ready_after}

abbrev pub ready_after_of : ProbeConfigWire → ℤ
ready_after_of p = p.ready_after

-- What the request asks for, or the default.
abbrev pub wanted_ready_after : Option Probe → ℤ
wanted_ready_after none = pos 2
wanted_ready_after (some p) = if lt_dur (pos 0) p.ready_after then p.ready_after else pos 2

abbrev pub IsUsable : ProbeConfigWire → Type 0
IsUsable p = (pos 0 <ℤ p.interval) × (pos 0 <ℤ p.ready_after) × (p.url ≢ "")

probe_wire-IsUsable : (p : Option Probe) → IsUsable (probe_wire p)
unfolding probe_wire
probe_wire-IsUsable none = (omega arith, omega arith, λ e. ground (arith, e, eq_iff "/health" ""))
probe_wire-IsUsable (some p) = ground (arith, eq_iff p.path "", eq_iff "/health" "")

ready_after-probe_wire : (p : Option Probe) → (probe_wire p).ready_after ≡ wanted_ready_after p
unfolding probe_wire
ready_after-probe_wire none = refl
ready_after-probe_wire (some p) = refl

-- A run is submitted with exactly one probe, with a path, a positive interval and a positive
-- ready_after, and if dstack echoes the probe, the run's streaks are judged by the ready_after that the
-- request asked for, or else by the default of 2.
pub run_spec-probes :
    (decimal : ℕ → String) (req : ApplyRequest)
    → (p : ProbeConfigWire) × ((run_spec decimal req).configuration.probes ≡ p ∷ [])
      × IsUsable p
      × (echoed_ready_after (map ready_after_of (p ∷ [])) ≡ wanted_ready_after req.probe)
unfolding run_spec echoed_ready_after
run_spec-probes decimal req =
    let u = probe_wire-IsUsable req.probe in
    (probe_wire req.probe, refl, u, ground (arith, u, ready_after-probe_wire req.probe))

-- ===== src/Dstack/Wire/Echo.antt =====
-- What of a run comes back to dstack unchanged when the run is submitted again: D115 and D156.
use Prim.Native.String.{◌++◌ as ◌++ₛ◌}
use squall.Common.{
  ℕ, zero, suc, ◌*◌, ◌/◌, ◌≡◌, ◌↔◌, refl, ap, arith, ℤ, pos, negsuc, Option, none, some, String,
  mul_add, ◌≤ℤ◌, ◌<ℤ◌,
}
use squall.Dstack.{Run, ApplyRequest}
use squall.Dstack.Wire.{
  RunWire, dstack_seconds, dstack_seconds_ptr, dstack_duration, of_seconds, wire_seconds_ptr,
  wire_seconds, run_spec, run_of_wire,
}

-- A number of seconds that is not negative and whose nanoseconds are within an int64.
abbrev pub IsInRange : ℤ → Type 0
IsInRange v = (pos 0 ≤ℤ v) × (v <ℤ pos 9223372037)

abbrev pub IsInRangeIfSet : Option ℤ → Type 0
IsInRangeIfSet none = Unit
IsInRangeIfSet (some v) = IsInRange v

-- A stored idle_duration is decoded and encoded as it was exactly if it is in range. So one below 0, or
-- one whose nanoseconds do not fit an int64, is not what comes back.
pub dstack_seconds-of_seconds_iff : (v : ℤ) → (dstack_seconds (of_seconds v) ≡ v) ↔ IsInRange v
unfolding dstack_seconds of_seconds mul_add
dstack_seconds-of_seconds_iff (pos n) = (λ e. ground (arith, e), λ r. ground (arith, r))
dstack_seconds-of_seconds_iff (negsuc n) = (λ e. ground (arith, e), λ r. ground (arith, r))

-- The number of seconds that is sent for a run's longest duration.
abbrev pub max_text : (ℕ → String) → Option ℤ → String
max_text decimal (some (pos (suc n))) = decimal (suc n) ++ₛ "s"
max_text decimal _ = ""

pub max_duration-echo :
    (decimal : ℕ → String) (v : Option ℤ)
    → IsInRangeIfSet v
    → dstack_duration decimal (wire_seconds v) ≡ max_text decimal v
unfolding dstack_duration wire_seconds of_seconds mul_add
max_duration-echo decimal none r = refl
max_duration-echo decimal (some (pos zero)) r = refl
max_duration-echo decimal (some (pos (suc n))) r =
    let e : of_seconds (pos (suc n)) ≡ pos (1000000000 * suc n) = ground (arith, r) in
    let d : (1000000000 * suc n) / 1000000000 ≡ suc n = omega arith in rw e (rw d (ground arith))
max_duration-echo decimal (some (negsuc n)) r = ground (arith, r)

pub idle_duration-echo :
    (v : Option ℤ) → IsInRangeIfSet v → dstack_seconds_ptr (wire_seconds_ptr v) ≡ v
unfolding dstack_seconds_ptr wire_seconds_ptr
idle_duration-echo none r = refl
idle_duration-echo (some v) r = ap some ((dstack_seconds-of_seconds_iff v).1 r)

-- A request that takes its env, key and durations from a run, as the flip to 0 replicas does.
abbrev pub from_run : Run → ApplyRequest → ApplyRequest
from_run run req = record req {
  env = run.env;
  ssh_key_pub = run.ssh_key_pub;
  idle_duration = run.idle_duration;
  max_duration = run.max_duration;
}

-- If the durations that dstack has stored for a run are in range or absent, a request that takes env, key and
-- durations from the run as decoded has the stored env, key and idle_duration, absent or 0 included, and
-- the stored max_duration as whole seconds, with no key where it is absent or 0.
pub run_spec-run_of_wire :
    (decimal : ℕ → String) (w : RunWire) (req : ApplyRequest)
    → IsInRangeIfSet w.idle_duration
    → IsInRangeIfSet w.max_duration
    → let spec = run_spec decimal (from_run (run_of_wire w) req) in
      (spec.ssh_key_pub ≡ w.ssh_key_pub)
      × (spec.configuration.env ≡ w.env)
      × (spec.configuration.idle_duration ≡ w.idle_duration)
      × (spec.configuration.max_duration ≡ max_text decimal w.max_duration)
unfolding run_spec run_of_wire
run_spec-run_of_wire decimal w req i m =
    (refl, refl, idle_duration-echo w.idle_duration i, max_duration-echo decimal w.max_duration m)

-- ===== src/Controller/Phase/Uncontrolled.antt =====
-- The deadline for capacity whose idleness cannot be judged (uncontrolledTimeoutFor and
-- uncontrolledDue of phase.go), with the int64 arithmetic of `4*idleTimeout + 15m`.
use squall.Common.{
  ◌⊎◌, ℕ, pos, ◌+◌, ◌*◌, ◌≤◌, ◌<◌, ◌≡◌, ◌≢◌, ◌↔◌, Bool, true, false, Option, none, some, arith,
  ◌≤ℤ◌, ◌<ℤ◌, sub_time-gt, mul_add, max_duration, Holds,
}
use squall.Api.{ModelSpec}
use squall.Controller.Phase.{
  uncontrolled_timeout_for, uncontrolled_due, default_uncontrolled_grace, max_uncontrolled_timeout,
  max_explicit_uncontrolled_timeout,
}

-- The largest idle timeout at which `4*idle + 15m` still fits an int64: about 73 years.
abbrev pub max_exact_idle : ℕ
max_exact_idle = 2305842784213693951

-- Without an explicit timeout the deadline is 4 idle timeouts and 15 minutes, at most 2 hours, as
-- long as that sum fits an int64.
pub uncontrolled_timeout_for_default :
    (spec : ModelSpec) (idle : ℕ)
    → spec.uncontrolled_timeout ≡ none
    → spec.idle_timeout ≡ pos idle
    → idle ≤ max_exact_idle
    → ((4 * idle + default_uncontrolled_grace ≤ max_uncontrolled_timeout)
        × (uncontrolled_timeout_for spec ≡ pos (4 * idle + default_uncontrolled_grace)))
      ⊎ ((max_uncontrolled_timeout < 4 * idle + default_uncontrolled_grace)
          × (uncontrolled_timeout_for spec ≡ pos max_uncontrolled_timeout))
unfolding uncontrolled_timeout_for mul_add
uncontrolled_timeout_for_default spec idle h k b = ground arith

-- Whatever the spec says, the deadline never passes 24 hours, and it is positive if the idle timeout
-- is not negative and at most about 73 years.
pub uncontrolled_timeout_for_bounds :
    (spec : ModelSpec) (idle : ℕ)
    → spec.idle_timeout ≡ pos idle
    → idle ≤ max_exact_idle
    → (pos 0 <ℤ uncontrolled_timeout_for spec)
      × (uncontrolled_timeout_for spec ≤ℤ pos max_explicit_uncontrolled_timeout)
unfolding uncontrolled_timeout_for mul_add
uncontrolled_timeout_for_bounds spec idle k b = ground arith

-- An idle timeout of about 73 to 146 years wraps the sum to a negative duration: with no explicit
-- timeout the uncontrolled deadline then never fires, at any time and whatever was recorded.
pub uncontrolled_due_overflow :
    (spec : ModelSpec) (idle : ℕ) (since : Option ℕ) (has_demand : Bool) (now : ℕ)
    → spec.uncontrolled_timeout ≡ none
    → spec.idle_timeout ≡ pos idle
    → max_exact_idle < idle
    → idle ≤ 4611685793427387903
    → uncontrolled_due since (uncontrolled_timeout_for spec) has_demand now ≡ false
unfolding uncontrolled_due uncontrolled_timeout_for mul_add
uncontrolled_due_overflow spec idle since has_demand now h k lo hi = ground arith

-- The deadline fires exactly without demand, for a positive timeout, once the recorded start of the
-- unmeasurable time lies further back than it.
pub uncontrolled_due_iff :
    (since : Option ℕ) (d : ℕ) (has_demand : Bool) (now : ℕ)
    → d < max_duration
    → (uncontrolled_due since (pos d) has_demand now ≡ true)
      ↔ ((has_demand ≡ false) × (0 < d) × Holds (λ t. (t ≢ 0) × (t + d < now)) since)
unfolding uncontrolled_due
uncontrolled_due_iff none d has_demand now h = ground arith
uncontrolled_due_iff (some t) d has_demand now h = ground (arith, sub_time-gt now t d)

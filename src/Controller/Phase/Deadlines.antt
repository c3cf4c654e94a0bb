-- ===== src/Controller/Phase/Deadlines.antt =====
-- What the deadline tests of phase.go mean in terms of instants.
use squall.Common.{
  ℕ, ℤ, pos, ◌+◌, ◌≤◌, ◌<◌, ◌≡◌, ◌≢◌, ◌↔◌, ◌⊎◌, Bool, true, false, Option, none, some, arith, ◌==◌,
  ◌≤ℤ◌, sub_time-gt, sub_time_mono, max_duration, Holds, if◌then◌else◌,
}
use squall.Controller.Phase.{
  ActivityEvidence, sleep_due, provisioning_due, unhealthy_due, health_anchor, threshold_or_default,
}

-- The instant that the idle window is measured from: the newest request that any replica saw, or the
-- one that status remembers where no replica has data.
abbrev pub idle_anchor : ActivityEvidence → Option ℕ → Option ℕ
idle_anchor ev durable =
    if ev.any_data
    then some ev.newest_last_request_at
    else if ev.newest_last_request_at == 0
    then durable
    else some ev.newest_last_request_at

-- The evidence that lets the controller put a Model to sleep.
pub record IsIdleLongEnough (durable : Option ℕ) (d now : ℕ) (ev : ActivityEvidence) : Type 0 where
  pub is_complete : ev.complete ≡ true
  pub is_idle : ev.all_idle ≡ true
  pub aged : Holds (λ t. t + d < now) (idle_anchor ev durable)
  pub anchored : (ev.any_data ≡ true) ⊎ Holds (λ t. t ≢ 0) (idle_anchor ev durable)

sleep_due-some :
    (ev : ActivityEvidence) (durable : Option ℕ) (d now : ℕ)
    → d < max_duration
    → (sleep_due (some ev) durable (pos d) now ≡ true) ↔ IsIdleLongEnough durable d now ev
unfolding sleep_due
sleep_due-some ev none d now h = ground (arith, sub_time-gt now ev.newest_last_request_at d)
sleep_due-some ev (some t) d now h =
    ground (arith, sub_time-gt now ev.newest_last_request_at d, sub_time-gt now t d)

-- sleepDue holds exactly where evidence was gathered, is complete and all idle, and its anchor is
-- older than the idle timeout; the anchor is status's only if no replica has data, and must be set.
pub sleep_due_iff :
    (activity : Option ActivityEvidence) (durable : Option ℕ) (d now : ℕ)
    → d < max_duration
    → (sleep_due activity durable (pos d) now ≡ true)
      ↔ Holds (IsIdleLongEnough durable d now) activity
unfolding sleep_due
sleep_due_iff none durable d now h = (λ e. cc, λ e. absurd e)
sleep_due_iff (some ev) durable d now h = sleep_due-some ev durable d now h

-- provisioningDue holds exactly of a wake that is recorded, not ready, and started longer ago than a
-- positive timeout.
pub provisioning_due_iff :
    (wake : Option ℕ) (probed : Bool) (d now : ℕ)
    → d < max_duration
    → (provisioning_due wake probed (pos d) now ≡ true)
      ↔ ((probed ≡ false) × (0 < d) × Holds (λ w. (w ≢ 0) × (w + d < now)) wake)
unfolding provisioning_due
provisioning_due_iff none probed d now h = ground arith
provisioning_due_iff (some w) probed d now h = ground (arith, sub_time-gt now w d)

-- The evidence on which a replica is found unhealthy.
pub record IsFailing (wake : Option ℕ) (after threshold idle now : ℕ) (ev : ActivityEvidence)
    : Type 0 where
  pub is_complete : ev.complete ≡ true
  pub has_traffic : now ≤ ev.newest_last_request_at + idle
  pub enough_failures : threshold_or_default (pos threshold) ≤ℤ ev.failures_since_success
  pub anchored : health_anchor ev wake ≢ 0
  pub aged : health_anchor ev wake + after < now

-- unhealthyDue holds exactly of a ready run with complete evidence, a request within the idle
-- timeout, at least the threshold of failures (3 where it is 0), and neither a success nor the wake
-- within the positive unhealthyAfter, one of which must be recorded.
pub unhealthy_due_iff :
    (activity : Option ActivityEvidence) (probed : Bool) (wake : Option ℕ)
    (after threshold idle now : ℕ)
    → after < max_duration
    → idle < max_duration
    → (unhealthy_due activity probed wake (pos after) (pos threshold) (pos idle) now ≡ true)
      ↔ ((probed ≡ true) × (0 < after) × Holds (IsFailing wake after threshold idle now) activity)
unfolding unhealthy_due
unhealthy_due_iff none probed wake after threshold idle now h k = ground arith
unhealthy_due_iff (some ev) probed none after threshold idle now h k = ground (
  arith,
  sub_time-gt now ev.newest_last_request_at idle,
  sub_time-gt now ev.newest_last_success_at after,
)
unhealthy_due_iff (some ev) probed (some w) after threshold idle now h k = ground (
  arith,
  sub_time-gt now ev.newest_last_request_at idle,
  sub_time-gt now ev.newest_last_success_at after,
  sub_time-gt now w after,
)

-- Unchanged evidence that is due for sleep stays due as time passes.
pub sleep_due_mono :
    (activity : Option ActivityEvidence) (durable : Option ℕ) (d : ℤ) (now later : ℕ)
    → now ≤ later
    → sleep_due activity durable d now ≡ true
    → sleep_due activity durable d later ≡ true
unfolding sleep_due
sleep_due_mono none durable d now later h e = e
sleep_due_mono (some ev) none d now later h e =
    ground (arith, sub_time_mono now later ev.newest_last_request_at d)
sleep_due_mono (some ev) (some t) d now later h e =
    ground (arith, sub_time_mono now later ev.newest_last_request_at d, sub_time_mono now later t d)

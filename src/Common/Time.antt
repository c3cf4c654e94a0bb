-- ===== src/Common/Time.antt =====
-- Go's time.Time and time.Duration. An instant is the number of nanoseconds since the zero Time
-- (January 1 of year 1), so that 0 is the value for which IsZero holds; a duration is a signed
-- 64-bit number of nanoseconds.
use Prim.Native.Nat.{ℕ, suc, ◌+◌, ◌-◌, ◌*◌, ◌%◌, ◌≤◌, ◌<◌, min}
use mathlib.Core.Path.{◌≡◌}
use mathlib.Core.Logic.{◌↔◌}
use mathlib.Core.Bool.{Bool, true, false}
use mathlib.Core.Option.{Option, none, some}
use native.Mathlib.Omega.{arith}
use squall.Common.Tests.{ltb, leb, ◌==◌, if◌then◌else◌}

-- `negsuc n` is -(n + 1).
pub data ℤ : Type 0 where
  pos : ℕ → ℤ
  negsuc : ℕ → ℤ

abbrev pub pos_part : ℤ → ℕ
pos_part (pos n) = n
pos_part (negsuc n) = 0

abbrev pub neg_part : ℤ → ℕ
neg_part (pos n) = 0
neg_part (negsuc n) = suc n

abbrev pub lt_dur : ℤ → ℤ → Bool
lt_dur a b = ltb (pos_part a + neg_part b) (pos_part b + neg_part a)

abbrev pub le_dur : ℤ → ℤ → Bool
le_dur a b = leb (pos_part a + neg_part b) (pos_part b + neg_part a)

infix 50 ◌<ℤ◌ ◌≤ℤ◌
abbrev pub ◌<ℤ◌ : ℤ → ℤ → Type 0
a <ℤ b = pos_part a + neg_part b < pos_part b + neg_part a

abbrev pub ◌≤ℤ◌ : ℤ → ℤ → Type 0
a ≤ℤ b = pos_part a + neg_part b ≤ pos_part b + neg_part a

abbrev pub second : ℕ
second = 1000000000

abbrev pub minute : ℕ
minute = 60000000000

abbrev pub hour : ℕ
hour = 3600000000000

-- The largest int64.
abbrev pub max_duration : ℕ
max_duration = 9223372036854775807

-- t.Sub(u): the difference, held within an int64.
unfoldable pub sub_time : ℕ → ℕ → ℤ
sub_time t u =
    if leb u t then pos (min (t - u) max_duration) else negsuc (min (u - t - 1) max_duration)

-- The bit pattern n as an int64.
abbrev pub int64 : ℕ → ℤ
int64 n = if ltb n 9223372036854775808 then pos n else negsuc (18446744073709551615 - n)

-- k * d + c on an int64, for constants k and c: it wraps.
unfoldable pub mul_add : ℕ → ℤ → ℕ → ℤ
mul_add k (pos n) c = int64 ((k * n + c) % 18446744073709551616)
mul_add k (negsuc n) c = int64 ((k * (18446744073709551615 - n) + c) % 18446744073709551616)

-- "now.Sub(t) > d", for a duration that is no int64 extreme, compares now with t + d.
pub sub_time-gt :
    (now t d : ℕ) → d < max_duration → (lt_dur (pos d) (sub_time now t) ≡ true) ↔ (t + d < now)
unfolding sub_time
sub_time-gt now t d h = ground arith

pub sub_time-lt :
    (now t d : ℕ)
    → d ≤ max_duration
    → 0 < d
    → (lt_dur (sub_time now t) (pos d) ≡ true) ↔ (now < t + d)
unfolding sub_time
sub_time-lt now t d h p = ground arith

pub sub_time-le :
    (now t d : ℕ) → d < max_duration → (le_dur (sub_time now t) (pos d) ≡ true) ↔ (now ≤ t + d)
unfolding sub_time
sub_time-le now t d h = ground arith

-- Later instants make the difference no smaller.
pub sub_time_mono :
    (now later t : ℕ) (d : ℤ)
    → now ≤ later
    → lt_dur d (sub_time now t) ≡ true
    → lt_dur d (sub_time later t) ≡ true
unfolding sub_time
sub_time_mono now later t d h e = ground arith

abbrev pub is_zero : ℤ → Bool
is_zero (pos n) = n == 0
is_zero (negsuc n) = false

-- The instant of a *metav1.Time that is known to be set.
abbrev pub instant_or_zero : Option ℕ → ℕ
instant_or_zero none = 0
instant_or_zero (some t) = t

abbrev low_int32 : ℕ → ℤ
low_int32 n = if ltb n 2147483648 then pos n else negsuc (4294967295 - n)

-- The conversion of an int to an int32.
abbrev pub int32 : ℤ → ℤ
int32 (pos n) = low_int32 (n % 4294967296)
int32 (negsuc n) = low_int32 (4294967295 - n % 4294967296)

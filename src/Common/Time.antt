-- ===== src/Common/Time.antt =====
-- time.Time as nanoseconds since Go's zero time, and time.Duration as an int64 of nanoseconds.
use Prim.Native.Nat.{ℕ, ◌+◌, ◌-◌, ◌/◌, ◌^◌}
use mathlib.Core.Bool.{Bool}
use super_duper_bassoon.Common.Tests.{leb, ◌==◌, if◌then◌else◌}
use super_duper_bassoon.Common.Int.{ℤ, pos, negsuc, wrap64, ◌*ℤ◌, ◌-ℤ◌}

abbrev pub Time : Type 0
Time = ℕ

abbrev pub is_zero : Time → Bool
is_zero t = t == 0

-- The largest Duration, at which Sub stops; below, it stops at the smallest one.
abbrev pub max_duration : ℕ
max_duration = 2 ^ 63 - 1

-- t.Sub(u)
abbrev pub sub_time : Time → Time → ℤ
sub_time t u =
    if leb u t
    then (if leb (t - u) max_duration then pos (t - u) else pos max_duration)
    else (if leb (u - t) max_duration then negsuc (u - t - 1) else negsuc max_duration)

abbrev pub second : ℕ
second = 1000000000

abbrev pub millisecond : ℕ
millisecond = 1000000

-- time.Duration(ms) * time.Millisecond
unfoldable pub of_ms : ℤ → ℤ
of_ms ms = wrap64 (ms *ℤ pos millisecond)

-- d.Milliseconds(), which drops the fraction
unfoldable pub milliseconds : ℤ → ℤ
milliseconds (pos n) = pos (n / millisecond)
milliseconds (negsuc n) = pos 0 -ℤ pos ((n + 1) / millisecond)

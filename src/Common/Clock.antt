-- ===== src/Common/Clock.antt =====
-- Go's `time.Time` and `time.Duration`, in nanoseconds; a time counts from Go's zero time.
use Prim.Native.Nat.{ℕ, ◌*◌, ◌^◌}
use mathlib.Core.Bool.{Bool}
use siger_api_gateway.Common.Tests.{eqb, ltb}

abbrev pub Time : Type 0
Time = ℕ

abbrev pub second : ℕ
second = 10 ^ 9

abbrev pub minute : ℕ
minute = 60 * second

abbrev pub hour : ℕ
hour = 60 * minute

abbrev pub is_zero : Time → Bool
is_zero t = eqb t 0

-- `t.Before(u)`
abbrev pub is_before : Time → Time → Bool
is_before t u = ltb t u

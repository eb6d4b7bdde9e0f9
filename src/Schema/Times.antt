-- ===== src/Schema/Times.antt =====
-- The operations of package time that the program uses, on nanoseconds.
use paota.Common.{◌^◌, ◌-◌, ◌≡◌, Bool, arith, if◌then◌else◌}
use paota.Common.Int.{ℤ, pos, negsuc, ◌+ℤ◌, ◌-ℤ◌, ◌*ℤ◌, quot, floor_div, ltb_ℤ}
use paota.Schema.{Time, Duration, second, millisecond}

-- `t.After(u)`
abbrev pub after : Time → Time → Bool
after t u = ltb_ℤ u t

-- A difference of times stops at the ends of the int64 range.
unfoldable pub saturate : ℤ → Duration
saturate d =
    if ltb_ℤ (pos (2 ^ 63 - 1)) d
    then pos (2 ^ 63 - 1)
    else if ltb_ℤ d (negsuc (2 ^ 63 - 1))
    then negsuc (2 ^ 63 - 1)
    else d

-- `t.Sub(u)`
unfoldable pub time_sub : Time → Time → Duration
unfolding ◌-ℤ◌ saturate
time_sub t u = saturate (t -ℤ u)

-- `t.Add(d)`
unfoldable pub time_add : Time → Duration → Time
unfolding ◌+ℤ◌
time_add t d = t +ℤ d

-- `int64(d / time.Millisecond)`
unfoldable pub to_milliseconds : Duration → ℤ
unfolding quot
to_milliseconds d = quot d millisecond

-- `t.Unix()`
unfoldable pub unix : Time → ℤ
unfolding floor_div
unix t = floor_div t second

-- `time.Unix(s, 0)`
unfoldable pub from_unix : ℤ → Time
unfolding ◌*ℤ◌
from_unix s = s *ℤ second

-- Whole seconds survive.
pub unix-from_unix : (s : ℤ) → unix (from_unix s) ≡ s
unfolding unix from_unix
unix-from_unix (pos n) = ground arith
unix-from_unix (negsuc n) = ground arith

-- ===== src/Utils.antt =====
-- internal/utils: the Fibonacci delay and the readers of dynamically typed header values.
pub mod Fibonacci
use paota.Common.{ℕ, ◌%◌, ◌^◌, ◌-◌, String, Bool, true, false}
use paota.Common.Int.{ℤ, pos, negsuc}
use paota.Schema.{Value, string, bool, int, int32, int64, float64, other}

-- Conversions of a float64, given by its bits, to the integer types that the program converts to,
-- and its comparison: the hardware's.
pub record Floats : Type 0 where
  pub to_int : ℕ → ℤ
  pub to_uint8 : ℕ → ℕ
  pub from_int : ℤ → ℕ
  -- `Duration.Seconds`
  pub seconds : ℤ → ℕ
  pub le : ℕ → ℕ → Bool

unfoldable pub get_string : Value → String
get_string (string s) = s
get_string _ = ""

unfoldable pub get_int : Floats → Value → ℤ
get_int fl (int32 i) = i
get_int fl (int64 i) = i
get_int fl (int i) = i
get_int fl (float64 f) = fl.to_int f
get_int fl _ = pos 0

-- `uint8(i)` keeps the low eight bits; -(n + 1) has the bits of 255 - n.
abbrev low_byte : ℤ → ℕ
low_byte (pos n) = n % 2 ^ 8
low_byte (negsuc n) = 2 ^ 8 - 1 - n % 2 ^ 8

unfoldable pub get_uint8 : Floats → Value → ℕ
get_uint8 fl (int i) = low_byte i
get_uint8 fl (float64 f) = fl.to_uint8 f
get_uint8 fl _ = 0

unfoldable pub get_bool : Value → Bool
get_bool (bool b) = b
get_bool _ = false

unfoldable pub get_int64_ok : Floats → Value → ℤ × Bool
get_int64_ok fl (int64 i) = (i, true)
get_int64_ok fl (float64 f) = (fl.to_int f, true)
get_int64_ok fl _ = (pos 0, false)

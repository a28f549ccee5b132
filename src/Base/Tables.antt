-- ===== src/Base/Tables.antt =====
-- What the program takes from Python's Unicode tables: `str.lower` and the decimal digits that `\d`
-- and `int` accept. Only their values on ASCII are fixed.
use hosting_service.Base.Tests.{leb, if◌then◌else◌}
use Prim.Native.Nat.{ℕ, ◌+◌, ◌-◌, ◌<◌}
use mathlib.Core.Path.{◌≡◌, refl}
use mathlib.Core.Bool.{Bool, false, ◌&&◌}
use mathlib.Core.Option.{Option, none, some}
use mathlib.Core.List.{[], ◌∷◌, map}
use native.Mathlib.Omega.{arith}
use hosting_service.Base.Lists.{All}
use hosting_service.Base.Texts.{Text}

abbrev pub is_upper : ℕ → Bool
is_upper c = leb b'A' c && leb c b'Z'

abbrev pub is_lower : ℕ → Bool
is_lower c = leb b'a' c && leb c b'z'

abbrev pub is_digit : ℕ → Bool
is_digit c = leb b'0' c && leb c b'9'

abbrev pub lower_char : ℕ → ℕ
lower_char c = if is_upper c then c + 32 else c

abbrev pub digit_value : ℕ → Option ℕ
digit_value c = if is_digit c then some (c - b'0') else none

abbrev pub IsAscii : Text → Type 0
IsAscii s = All (λ c. c < 128) s

pub record Unicode : Type 0 where
  -- `s.lower()`
  pub lower : Text → Text
  -- `unicodedata.decimal(c, None)`
  pub decimal : ℕ → Option ℕ
  pub lower_ascii : (s : Text) → IsAscii s → lower s ≡ map lower_char s
  pub decimal_ascii : (c : ℕ) → c < 128 → decimal c ≡ digit_value c
  pub decimal_range : (c d : ℕ) → decimal c ≡ some d → d < 10

pub digit_value_range : (c d : ℕ) → digit_value c ≡ some d → d < 10
digit_value_range c d h = ground arith

-- The tables that know of nothing but ASCII.
abbrev pub ascii_only : Unicode
ascii_only = record {
  lower = map lower_char;
  decimal = digit_value;
  lower_ascii = λ s h. refl;
  decimal_ascii = λ c h. refl;
  decimal_range = digit_value_range;
}

-- A text with nothing to lower is its own lower case.
pub map-lower_char : (s : Text) → All (λ c. is_upper c ≡ false) s → map lower_char s ≡ s
map-lower_char [] h = refl
map-lower_char (c ∷ s) (p, h) = ground (arith, map-lower_char s h)

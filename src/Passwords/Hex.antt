-- ===== src/Passwords/Hex.antt =====
-- The methods `hex` and `fromhex` of Python's `bytes`. Bytes are a list of numbers below 256.
use payment_ops.Prelude.{
  ℕ, ◌+◌, ◌-◌, ◌*◌, ◌/◌, ◌%◌, ◌<◌, ◌≡◌, refl, ◌∙◌, ap, Bool, true, false, ◌&&◌, ◌||◌, Option, none,
  some, List, [], ◌∷◌, Text, ltb, leb, ◌==◌, if◌then◌else◌, All, any, arith,
}

abbrev pub Bytes : Type 0
Bytes = List ℕ

abbrev pub IsBytes : Bytes → Type 0
IsBytes bs = All (λ b. b < 256) bs

unfoldable pub hex_digit : ℕ → ℕ
hex_digit n = if ltb n 10 then b'0' + n else b'a' + (n - 10)

-- `bs.hex()`
unfoldable pub hex : Bytes → Text
hex [] = []
hex (b ∷ bs) = hex_digit (b / 16) ∷ hex_digit (b % 16) ∷ hex bs

unfoldable pub hex_value : ℕ → Option ℕ
hex_value c =
    if leb b'0' c && leb c b'9'
    then some (c - b'0')
    else if leb b'a' c && leb c b'f'
    then some (c - b'a' + 10)
    else if leb b'A' c && leb c b'F'
    then some (c - b'A' + 10)
    else none

unfoldable pub byte_of : Option ℕ → Option ℕ → Option Bytes → Option Bytes
byte_of (some h) (some l) (some bs) = some ((h * 16 + l) ∷ bs)
byte_of _ _ _ = none

-- The white space that `fromhex` skips between two bytes.
unfoldable pub is_gap : ℕ → Bool
is_gap c = (leb 9 c && leb c 13) || (c == b' ')

-- `bytes.fromhex(s)`; `none` is a `ValueError`.
unfoldable pub from_hex : Text → Option Bytes
from_hex [] = some []
from_hex (c ∷ []) = if is_gap c then some [] else none
from_hex (c ∷ d ∷ s) = elim (is_gap c) [
  | true ↦ from_hex (d ∷ s)
  | false ↦ byte_of (hex_value c) (hex_value d) (from_hex s)
]

is_gap-hex_digit : (n : ℕ) → is_gap (hex_digit n) ≡ false
unfolding is_gap hex_digit
is_gap-hex_digit n = ground arith

hex_value-hex_digit : (n : ℕ) → n < 16 → hex_value (hex_digit n) ≡ some n
unfolding hex_value hex_digit
hex_value-hex_digit n h = ground arith

from_hex_pair :
    (c d : ℕ) (s : Text)
    → is_gap c ≡ false
    → from_hex (c ∷ d ∷ s) ≡ byte_of (hex_value c) (hex_value d) (from_hex s)
unfolding from_hex
from_hex_pair c d s h = rw (h, from_hex) refl

-- What is written in hexadecimal digits is read back.
pub from_hex-hex : (bs : Bytes) → IsBytes bs → from_hex (hex bs) ≡ some bs
unfolding from_hex hex byte_of
from_hex-hex [] h = refl
from_hex-hex (b ∷ bs) h =
    let joined : (b / 16) * 16 + b % 16 ≡ b = omega arith in
    from_hex_pair (hex_digit (b / 16)) (hex_digit (b % 16)) (hex bs) (is_gap-hex_digit (b / 16))
    ∙ rw
        (
          hex_value-hex_digit (b / 16) (omega (arith, h.0)),
          hex_value-hex_digit (b % 16) (omega arith),
          from_hex-hex bs h.1,
        )
        (ap (λ c. some (c ∷ bs)) joined)

-- No other character than a digit or a letter from a to f stands in the text.
pub hex-lacks : (c : ℕ) (bs : Bytes) → c < 48 → any (λ d. d == c) (hex bs) ≡ false
unfolding hex hex_digit
hex-lacks c [] h = refl
hex-lacks c (b ∷ bs) h = ground (arith, hex-lacks c bs h)

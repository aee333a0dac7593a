-- ===== src/Mapping/Index.antt =====
-- Indices that are written out and read back.
use mathlib.Core.List.{reverse-cons, reverse-reverse}
use payment_ops.Prelude.{
  ℕ, zero, suc, ◌+◌, ◌-◌, ◌*◌, ◌≤◌, ◌≡◌, refl, ap, ◌∙◌, Bool, true, false, ◌||◌, some, [], ◌∷◌,
  Text, All, any, any-append, arith, if◌then◌else◌, ◌==◌, reverse, nonempty, Bool-cases, inl, inr,
  ==_iff,
}
use payment_ops.Prelude.Int.{pos}
use payment_ops.Unicode.{
  Unicode, is_space, lstrip, strip, digit, parse_digits, parse_signed, parse_int,
}
use payment_ops.Mapping.Fresh.{increment, carried, show_index}

abbrev pub AreDecimal : Text → Type 0
AreDecimal s = All (λ c. (48 ≤ c) × (c ≤ 57)) s

increment-AreDecimal : (s : Text) → AreDecimal s → AreDecimal (increment s).1
unfolding increment
increment-AreDecimal [] h = tt
increment-AreDecimal (d ∷ ds) h = ground (arith, h.0.0, h.0.1, increment-AreDecimal ds h.1)

carried-AreDecimal : (p : Bool × Text) → AreDecimal p.1 → AreDecimal (carried p)
carried-AreDecimal (true, s) h = ((omega arith, omega arith), h)
carried-AreDecimal (false, s) h = h

pub show_index-AreDecimal : (i : ℕ) → AreDecimal (show_index i)
unfolding show_index
show_index-AreDecimal zero = ((omega arith, omega arith), tt)
show_index-AreDecimal (suc i) =
    carried-AreDecimal (increment (show_index i))
      (increment-AreDecimal (show_index i) (show_index-AreDecimal i))

-- The value of digits behind a number.
unfoldable value : ℕ → Text → ℕ
value n [] = n
value n (c ∷ s) = value (n * 10 + (c - 48)) s

abbrev carry : Bool → ℕ
carry true = 1
carry false = 0

-- A digit in front of digits that may carry.
abbrev bump : ℕ → Bool × Text → Bool × Text
bump d rest =
    if rest.0
    then if d == b'9' then (true, b'0' ∷ rest.1) else (false, (d + 1) ∷ rest.1)
    else (false, d ∷ rest.1)

value-bump :
    (n d : ℕ) (ds : Text) (rest : Bool × Text)
    → 48 ≤ d
    → value (n * 10 + (d - 48) + carry rest.0) rest.1 ≡ value (n * 10 + (d - 48)) ds + 1
    → value (n + carry (bump d rest).0) (bump d rest).1 ≡ value n (d ∷ ds) + 1
unfolding value
value-bump n d ds (false, s) lo ih = ap (λ m. value m s) (omega arith) ∙ ih
value-bump n d ds (true, s) lo ih = elim (Bool-cases (d == b'9')) [
  | inl e ↦ rw e (ap (λ m. value m s) (omega (arith, nine d e)) ∙ ih)
  | inr e ↦ rw e (ap (λ m. value m s) (omega arith) ∙ ih)
]
  where
    nine : (d : ℕ) → (d == b'9') ≡ true → d ≡ 57
    nine d e = (==_iff d b'9').0 e

value-increment :
    (n : ℕ) (s : Text)
    → AreDecimal s
    → value (n + carry (increment s).0) (increment s).1 ≡ value n s + 1
unfolding increment
value-increment n [] h = unfold value in refl
value-increment n (d ∷ ds) h =
    value-bump n d ds (increment ds) h.0.0 (value-increment (n * 10 + (d - 48)) ds h.1)

value-carried : (p : Bool × Text) → value 0 (carried p) ≡ value (0 + carry p.0) p.1
unfolding value
value-carried (true, s) = refl
value-carried (false, s) = refl

value-show_index : (i : ℕ) → value 0 (show_index i) ≡ i
unfolding show_index
value-show_index zero = unfold value in refl
value-show_index (suc i) =
    value-carried (increment (show_index i))
    ∙ value-increment 0 (show_index i) (show_index-AreDecimal i)
    ∙ ap (λ n. n + 1) (value-show_index i)
    ∙ (omega arith)

test_false : (c d : ℕ) → suc d ≤ c → (c == d) ≡ false
test_false c d h = ground arith

module _ (u : Unicode) where
  digit-decimal : (c : ℕ) → 48 ≤ c → c ≤ 57 → digit u c ≡ some (c - 48)
  unfolding digit
  digit-decimal c lo hi = ground arith

  parse_digits-value :
      (n : ℕ) (s : Text) → AreDecimal s → parse_digits u true n s ≡ some (value n s)
  unfolding parse_digits value
  parse_digits-value n [] h = refl
  parse_digits-value n (c ∷ s) h =
      rw (digit-decimal c h.0.0 h.0.1, parse_digits) (parse_digits-value (n * 10 + (c - 48)) s h.1)

  first_digit :
      (c : ℕ) (s : Text)
      → AreDecimal (c ∷ s)
      → parse_digits u false 0 (c ∷ s) ≡ some (value 0 (c ∷ s))
  unfolding parse_digits value
  first_digit c s h =
      rw (digit-decimal c h.0.0 h.0.1, parse_digits) (parse_digits-value (0 * 10 + (c - 48)) s h.1)

  parse_signed-value :
      (s : Text) → AreDecimal s → nonempty s ≡ true → parse_signed u s ≡ some (pos (value 0 s))
  unfolding parse_signed
  parse_signed-value [] h e = cc
  parse_signed-value (c ∷ s) h e =
      rw
        (
          test_false c 45 (omega (arith, h.0.0)),
          test_false c 43 (omega (arith, h.0.0)),
          first_digit c s h,
        )
        refl

no_space : (s : Text) → AreDecimal s → any is_space s ≡ false
unfolding is_space
no_space [] h = refl
no_space (c ∷ s) h = ground (arith, h.0.0, h.0.1, no_space s h.1)

any-reverse : (p : ℕ → Bool) (s : Text) → any p (reverse s) ≡ any p s
any-reverse p [] = refl
any-reverse p (c ∷ s) =
    rw (reverse-cons c s, any-append p (reverse s) (c ∷ []), any-reverse p s) (ground arith)

lstrip-no_space : (s : Text) → any is_space s ≡ false → lstrip s ≡ s
unfolding lstrip
lstrip-no_space [] h = refl
lstrip-no_space (c ∷ s) h = ground (arith, h)

strip-no_space : (s : Text) → any is_space s ≡ false → strip s ≡ s
unfolding strip
strip-no_space s h =
    rw (lstrip-no_space s h, lstrip-no_space (reverse s) (any-reverse is_space s ∙ h))
      (reverse-reverse s)

nonempty-increment : (s : Text) → nonempty (increment s).1 ≡ nonempty s
unfolding increment
nonempty-increment [] = refl
nonempty-increment (d ∷ ds) = ground arith

nonempty-carried : (p : Bool × Text) → nonempty (carried p) ≡ (p.0 || nonempty p.1)
nonempty-carried (true, s) = refl
nonempty-carried (false, s) = refl

pub nonempty-show_index : (i : ℕ) → nonempty (show_index i) ≡ true
unfolding show_index
nonempty-show_index zero = refl
nonempty-show_index (suc i) = ground (
  arith,
  nonempty-carried (increment (show_index i)),
  nonempty-increment (show_index i),
  nonempty-show_index i,
)

-- `int(str(i))`
pub parse_int-show_index : (u : Unicode) (i : ℕ) → parse_int u (show_index i) ≡ some (pos i)
unfolding parse_int
parse_int-show_index u i =
    rw
      (
        strip-no_space (show_index i) (no_space (show_index i) (show_index-AreDecimal i)),
        parse_signed-value u (show_index i) (show_index-AreDecimal i) (nonempty-show_index i),
      )
      (ap (λ n. some (pos n)) (value-show_index i))

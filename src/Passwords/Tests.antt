-- ===== src/Passwords/Tests.antt =====
-- A password stored under a digest that is the password behind the salt.
use payment_ops.Prelude.{
  ◌≡◌, ◌↔◌, refl, true, some, [], ◌∷◌, ◌++◌, codes, arith, ◌%◌, ◌<◌, All-append,
}
use mathlib.Core.Option.{some-injective}
use payment_ops.Prelude.Int.{ℤ, pos}
use payment_ops.Unicode.Ascii.{ascii}
use payment_ops.Passwords.Hex.{Bytes, IsBytes, hex, hex_digit}
use payment_ops.Passwords.{Digests, pbkdf2_iterations, derive, hash_password, verify_password}
use payment_ops.Passwords.Accepted.{verify_password-hash_password}

-- The number of the iterations is the digest, so that it is bytes whatever is hashed.
abbrev first_byte : Bytes → Bytes
first_byte [] = 0 ∷ []
first_byte (b ∷ bs) = (b % 256) ∷ []

abbrev short : Digests
short = record {
  encode = λ s. some s;
  pbkdf2 = λ p s i. some (first_byte p ++ first_byte s);
  sha256 = first_byte;
}

first_byte-IsBytes : (b : Bytes) → IsBytes (first_byte b)
first_byte-IsBytes [] = (omega arith, tt)
first_byte-IsBytes (b ∷ bs) = (omega arith, tt)

short-IsBytes :
    (p s : Bytes) (i : ℤ) (digest : Bytes) → short.pbkdf2 p s i ≡ some digest → IsBytes digest
short-IsBytes p s i digest e = rw (← some-injective (first_byte p ++ first_byte s) digest e) (
    All-append (λ b. b < 256) (first_byte p) (first_byte s) (first_byte-IsBytes p)
      (first_byte-IsBytes s))

verify_password-hash_password_example :
    (verify_password short ascii (codes "red") (codes "pbkdf2_sha256$600000$0fa0$720f") ≡ true) ↔ (
      derive short (codes "red") (15 ∷ 160 ∷ []) (pos pbkdf2_iterations)
      ≡ derive short (codes "rot") (15 ∷ 160 ∷ []) (pos pbkdf2_iterations))
unfolding hash_password derive hex hex_digit
verify_password-hash_password_example =
    verify_password-hash_password short ascii (15 ∷ 160 ∷ []) (omega arith, (omega arith, tt))
      short-IsBytes (codes "rot") (codes "pbkdf2_sha256$600000$0fa0$720f") refl (codes "red")

-- ===== src/Passwords.antt =====
-- apps/api/paymentops_api/passwords.py: the stored form of a password, and its verification. The
-- primitives of hashlib and the UTF-8 encoding are parameters; one that raises gives `none`.
pub mod Hex
pub mod Accepted
mod Tests
use payment_ops.Prelude.{
  ℕ, Bool, true, false, Option, none, some, List, [], ◌∷◌, ◌++◌, Text, codes, text_eq, ◌==◌,
  if◌then◌else◌, ◌>>=◌,
}
use payment_ops.Prelude.Int.{ℤ, pos}
use payment_ops.Unicode.{Unicode, parse_int}
use payment_ops.Passwords.Hex.{Bytes, hex, from_hex}

pub record Digests : Type 0 where
  -- `s.encode("utf-8")`
  pub encode : Text → Option Bytes
  -- `hashlib.pbkdf2_hmac("sha256", password, salt, iterations)`
  pub pbkdf2 : Bytes → Bytes → ℤ → Option Bytes
  -- `hashlib.sha256(data).digest()`
  pub sha256 : Bytes → Bytes

abbrev pub pbkdf2_algorithm : Text
pbkdf2_algorithm = codes "pbkdf2_sha256"

abbrev pub pbkdf2_iterations : ℕ
pbkdf2_iterations = 600_000

-- The text before the first separator, and the text behind it.
unfoldable pub split_once : ℕ → Text → Option (Text × Text)
split_once sep [] = none
split_once sep (c ∷ s) = elim (c == sep) [
  | true ↦ some ([], s)
  | false ↦ elim (split_once sep s) [ none ↦ none | some p ↦ some (c ∷ p.0, p.1) ]
]

-- `algorithm, iterations, salt_hex, digest_hex = stored.split("$", 3)`
pub record Stored : Type 0 where
  pub algorithm : Text
  pub iterations : Text
  pub salt_hex : Text
  pub digest_hex : Text

-- `none` is the `ValueError` of the assignment to four names: there are fewer than three separators.
unfoldable pub split_stored : Text → Option Stored
split_stored stored = do
  one ← split_once b'$' stored
  two ← split_once b'$' one.1
  three ← split_once b'$' two.1
  some (record { algorithm = one.0; iterations = two.0; salt_hex = three.0; digest_hex = three.1 })

-- A `ValueError` or a `TypeError` is a refusal.
abbrev pub verdict : Option Bool → Bool
verdict none = false
verdict (some answer) = answer

module _ (h : Digests) where
  -- `pbkdf2_hmac` of a password that is a text.
  unfoldable pub derive : Text → Bytes → ℤ → Option Bytes
  derive password salt iterations = do encoded ← h.encode password; h.pbkdf2 encoded salt iterations

  -- `hash_password`, for the salt that the system gives.
  unfoldable pub hash_password : Text → Bytes → Option Text
  hash_password password salt = do
    digest ← derive password salt (pos pbkdf2_iterations)
    some (pbkdf2_algorithm ++ b'$' ∷ codes "600000" ++ b'$' ∷ hex salt ++ b'$' ∷ hex digest)

  -- The body of `verify_password`, where `none` is an exception.
  unfoldable pub check_stored : Unicode → Text → Stored → Option Bool
  check_stored u password s =
      if text_eq s.algorithm pbkdf2_algorithm
      then (do
        salt ← from_hex s.salt_hex
        expected ← from_hex s.digest_hex
        iterations ← parse_int u s.iterations
        actual ← derive password salt iterations
        some (text_eq actual expected))
      else some false

  unfoldable pub verify_password : Unicode → Text → Text → Bool
  verify_password u password stored = verdict (split_stored stored >>= check_stored u password)

  unfoldable pub hash_session_token : Text → Option Text
  hash_session_token token = do encoded ← h.encode token; some (hex (h.sha256 encoded))

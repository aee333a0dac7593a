-- ===== src/Passwords/Accepted.antt =====
-- Which passwords a stored hash accepts.
use mathlib.Core.Option.{some-injective}
use payment_ops.Prelude.{
  ℕ, ◌≡◌, ◌↔◌, refl, sym, ap, ◌∙◌, ◌>>=◌, true, false, Option, none, some, [], ◌∷◌, ◌++◌, Text,
  codes, text_eq, text_eq_iff, ◌==◌, any, Option-cases, inl, inr, arith,
}
use payment_ops.Prelude.Int.{ℤ, pos}
use payment_ops.Unicode.{
  Unicode, parse_int, strip, lstrip, is_space, parse_signed, parse_digits, digit,
}
use payment_ops.Passwords.Hex.{Bytes, IsBytes, hex, from_hex, from_hex-hex, hex-lacks}
use payment_ops.Passwords.{
  Digests, pbkdf2_algorithm, pbkdf2_iterations, split_once, split_stored, derive, hash_password,
  check_stored, verify_password, verdict,
}

-- A text without the separator is what stands before it.
split_once-append :
    (sep : ℕ) (s t : Text)
    → any (λ c. c == sep) s ≡ false
    → split_once sep (s ++ sep ∷ t) ≡ some (s, t)
unfolding split_once
split_once-append sep [] t h = ground arith
split_once-append sep (c ∷ s) t h = ground (arith, split_once-append sep s t)

-- The text of a stored password.
abbrev stored_text : Bytes → Bytes → Text
stored_text salt digest =
    pbkdf2_algorithm ++ b'$' ∷ codes "600000" ++ b'$' ∷ hex salt ++ b'$' ∷ hex digest

split_stored-stored_text :
    (salt digest : Bytes)
    → split_stored (stored_text salt digest)
      ≡ some (record {
        algorithm = pbkdf2_algorithm;
        iterations = codes "600000";
        salt_hex = hex salt;
        digest_hex = hex digest;
      })
unfolding split_stored split_once
split_stored-stored_text salt digest =
    rw (split_once-append b'$' (hex salt) (hex digest) (hex-lacks b'$' salt (omega arith))) refl

accepted_iff :
    (actual : Option Bytes) (digest : Bytes)
    → (verdict (actual >>= λ a. some (text_eq a digest)) ≡ true) ↔ (actual ≡ some digest)
accepted_iff none digest = ground arith
accepted_iff (some a) digest = (
  λ e. ap some ((text_eq_iff a digest).0 e),
  λ e. (text_eq_iff a digest).1 (some-injective a digest e),
)

module _ (h : Digests) (u : Unicode) where
  derive-IsBytes :
      (password : Text) (salt : Bytes) (i : ℤ) (digest : Bytes)
      → ((p s : Bytes) (i : ℤ) (digest : Bytes) → h.pbkdf2 p s i ≡ some digest → IsBytes digest)
      → derive h password salt i ≡ some digest
      → IsBytes digest
  unfolding derive
  derive-IsBytes password salt i digest bytes e = elim (Option-cases (h.encode password)) [
    | inl raised ↦ ground (arith, raised)
    | inr (encoded, read) ↦ bytes encoded salt i digest (ground (arith, read))
  ]

  -- The comparison of the two digests, once both texts are read.
  check_stored-from_hex :
      (password salt_hex digest_hex : Text) (salt digest : Bytes)
      → from_hex salt_hex ≡ some salt
      → from_hex digest_hex ≡ some digest
      → check_stored h u password (record {
        algorithm = pbkdf2_algorithm;
        iterations = codes "600000";
        salt_hex = salt_hex;
        digest_hex = digest_hex;
      })
        ≡ (derive h password salt (pos pbkdf2_iterations) >>= λ actual.
            some (text_eq actual digest))
  unfolding check_stored text_eq parse_int strip lstrip is_space parse_signed parse_digits digit
  check_stored-from_hex password salt_hex digest_hex salt digest hs hd = rw (hs, hd) refl

  verify_password-stored_text :
      (password : Text) (salt digest : Bytes)
      → IsBytes salt
      → IsBytes digest
      → verify_password h u password (stored_text salt digest)
        ≡ verdict (
            derive h password salt (pos pbkdf2_iterations) >>= λ actual.
            some (text_eq actual digest))
  unfolding verify_password
  verify_password-stored_text password salt digest hs hd =
      ap (λ s. verdict (s >>= check_stored h u password)) (split_stored-stored_text salt digest)
      ∙ ap verdict (
          check_stored-from_hex password (hex salt) (hex digest) salt digest (from_hex-hex salt hs)
            (from_hex-hex digest hd))

  -- A stored password accepts exactly the passwords that have the same digest under its salt, thus
  -- also the one that it was made of. The salt and the digests are bytes.
  pub verify_password-hash_password :
      (salt : Bytes)
      → IsBytes salt
      → ((p s : Bytes) (i : ℤ) (digest : Bytes) → h.pbkdf2 p s i ≡ some digest → IsBytes digest)
      → (password stored : Text) → hash_password h password salt ≡ some stored
      → (other : Text)
      → (verify_password h u other stored ≡ true) ↔ (
          derive h other salt (pos pbkdf2_iterations)
          ≡ derive h password salt (pos pbkdf2_iterations))
  unfolding hash_password
  verify_password-hash_password salt hs bytes password stored made other =
      elim (Option-cases (derive h password salt (pos pbkdf2_iterations))) [
        | inl e ↦ ground (arith, e)
        | inr (digest, e) ↦
            let text : stored_text salt digest ≡ stored =
              some-injective (stored_text salt digest) stored (sym (rw e refl) ∙ made) in
            rw
              (
                ← text,
                verify_password-stored_text other salt digest hs
                    (derive-IsBytes password salt (pos pbkdf2_iterations) digest bytes e),
                e,
              )
              (accepted_iff (derive h other salt (pos pbkdf2_iterations)) digest)
      ]

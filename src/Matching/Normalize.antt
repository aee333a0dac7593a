-- ===== src/Matching/Normalize.antt =====
-- packages/matching_engine/normalization.py: the normalisers of single values.
use payment_ops.Prelude.{Option, none, some, Text, or_none}
use payment_ops.Unicode.{Unicode, remove_char, collapse, upper, casefold}

module _ (u : Unicode) where
  unfoldable pub normalize_identifier : Option Text → Option Text
  normalize_identifier none = none
  normalize_identifier (some s) = or_none (upper u (collapse (u.nfkc s)))

  -- Removes blanks, hyphens and no-break spaces.
  unfoldable pub normalize_iban : Option Text → Option Text
  normalize_iban none = none
  normalize_iban (some s) =
      or_none (upper u (remove_char 0xa0 (remove_char b'-' (remove_char b' ' (u.nfkc s)))))

  unfoldable pub normalize_bic : Option Text → Option Text
  normalize_bic none = none
  normalize_bic (some s) = or_none (upper u (collapse (u.nfkc s)))

  -- Removes blanks, hyphens, dots and number signs.
  unfoldable pub normalize_reference : Option Text → Option Text
  normalize_reference none = none
  normalize_reference (some s) = or_none (
      upper u
        (remove_char b'#' (remove_char b'.' (remove_char b'-' (remove_char b' ' (u.nfkc s))))))

  unfoldable pub normalize_currency : Option Text → Option Text
  normalize_currency none = none
  normalize_currency (some s) = or_none (upper u (collapse (u.nfkc s)))

  unfoldable pub normalize_country : Option Text → Option Text
  normalize_country none = none
  normalize_country (some s) = or_none (upper u (collapse (u.nfkc s)))

  unfoldable pub normalize_free_text : Option Text → Option Text
  normalize_free_text none = none
  normalize_free_text (some s) = or_none (casefold u (collapse (u.nfkc s)))

-- ===== src/Unicode/Ascii.antt =====
-- The Unicode tables on ASCII, for tests: all other characters stay as they are.
use payment_ops.Prelude.{ℕ, ◌+◌, ◌-◌, ◌&&◌, none, [], ◌∷◌, leb, Text, if◌then◌else◌}
use payment_ops.Unicode.{Unicode, translate}

abbrev pub fold_ascii : ℕ → Text
fold_ascii c = (if leb b'A' c && leb c b'Z' then c + 32 else c) ∷ []

abbrev pub ascii : Unicode
ascii = record {
  upper_char = λ c. (if leb b'a' c && leb c b'z' then c - 32 else c) ∷ [];
  fold_char = fold_ascii;
  nfkc = λ s. s;
  lower = translate fold_ascii;
  is_upper = λ c. leb b'A' c && leb c b'Z';
  decimal = λ c. none;
}

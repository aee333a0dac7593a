-- ===== src/Addresses/Valid.antt =====
-- The country codes that the deterministic provider gives.
use mathlib.Core.Option.{some-injective}
use payment_ops.Prelude.{
  ℕ, ◌≤◌, String, ◌≡◌, refl, sym, inl, inr, Bool, true, ◌&&◌, Option, none, some, List, [], ◌∷◌,
  Text, codes, any, all, All, All-find, find, text_eq, text_eq_sound, leb, arith, Option-cases,
  Bool-cases,
}
use payment_ops.Unicode.{Unicode, upper, translate, strip}
use payment_ops.Domain.Payment.{PostalAddress}
use payment_ops.Domain.Countries.{
  is_valid_country_code, valid_country_codes, country_name_to_code, normalize_country_name,
}
use payment_ops.Addresses.{
  country_code_of, derived_or_unknown, country_of_token, country_in_tokens,
  extract_country_from_lines, resolve_country, conclude, analyze, normalize_whitespace,
  split_commas,
}

-- The upper case of an ASCII capital is the letter itself, as the Unicode tables have it.
unfoldable pub KeepsCapitals : Unicode → Type 0
KeepsCapitals u = (c : ℕ) → b'A' ≤ c → c ≤ b'Z' → u.upper_char c ≡ c ∷ []

is_capital : ℕ → Bool
is_capital c = leb b'A' c && leb c b'Z'

All-all {ℓ} : {A : Type ℓ} (p : A → Bool) (xs : List A) → all p xs ≡ true → All (λ x. p x ≡ true) xs
All-all p [] h = tt
All-all p (x ∷ xs) h = (ground arith, All-all p xs (ground arith))

some_with_all {ℓ} :
    {A : Type ℓ} (p q : A → Bool) (xs : List A)
    → all p xs ≡ true
    → any q xs ≡ true
    → (x : A) × (p x ≡ true) × (q x ≡ true)
some_with_all p q [] h e = cc
some_with_all p q (x ∷ xs) h e = elim (Bool-cases (q x)) [
  | inl here ↦ (x, ground arith, here)
  | inr later ↦ some_with_all p q xs (ground arith) (ground arith)
]

upper-capitals :
    (u : Unicode) → KeepsCapitals u → (s : Text) → all is_capital s ≡ true → upper u s ≡ s
unfolding upper translate is_capital KeepsCapitals
upper-capitals u keeps [] h = refl
upper-capitals u keeps (c ∷ s) h =
    rw (keeps c (ground arith) (ground arith), upper-capitals u keeps s (ground arith)) refl

-- A valid code is its own upper case.
upper-valid :
    (u : Unicode)
    → KeepsCapitals u
    → (code : Text) → is_valid_country_code code ≡ true
    → upper u code ≡ code
unfolding is_valid_country_code valid_country_codes is_capital
upper-valid u keeps code h =
    let (c, capital, same) =
      some_with_all (λ c. all is_capital (codes c)) (λ c. text_eq (codes c) code)
        valid_country_codes refl h in
    upper-capitals u keeps code (rw (sym (text_eq_sound (codes c) code same)) capital)

-- What is found is a valid code.
abbrev Valid : Option Text → Type 0
Valid o = (code : Text) → o ≡ some code → is_valid_country_code code ≡ true

names_lead_to_valid :
    all (λ (e : String × String). is_valid_country_code (codes e.1)) country_name_to_code ≡ true
unfolding country_name_to_code is_valid_country_code valid_country_codes text_eq
names_lead_to_valid = refl

Valid-none : Valid none
Valid-none code h = cc

Valid-some : (code : Text) → is_valid_country_code code ≡ true → Valid (some code)
Valid-some code v code' h = rw (sym (some-injective code code' h)) v

normalize_country_name-Valid : (u : Unicode) (name : Text) → Valid (normalize_country_name u name)
unfolding normalize_country_name
normalize_country_name-Valid u name =
    elim (Option-cases (
      find (λ (e : String × String). text_eq (codes e.0) (upper u (strip name)))
        country_name_to_code)) [
          | inl absent ↦ rw absent Valid-none
          | inr (e, found) ↦ rw found (
              Valid-some (codes e.1) (
                All-find (λ (e : String × String). is_valid_country_code (codes e.1) ≡ true) _
                  country_name_to_code e
                  (All-all (λ (e : String × String). is_valid_country_code (codes e.1))
                    country_name_to_code names_lead_to_valid)
                  found))
        ]

module _ (u : Unicode) where
  country_of_token-Valid : (token : Text) → Valid (country_of_token u token)
  unfolding country_of_token
  country_of_token-Valid token =
      elim (Bool-cases (is_valid_country_code (upper u (normalize_whitespace (u.nfkc token))))) [
        | inl v ↦ rw v (Valid-some _ v)
        | inr other ↦
            rw other (normalize_country_name-Valid u (normalize_whitespace (u.nfkc token)))
      ]

  country_in_tokens-Valid : (tokens : List Text) → Valid (country_in_tokens u tokens)
  unfolding country_in_tokens
  country_in_tokens-Valid [] = Valid-none
  country_in_tokens-Valid (token ∷ tokens) = elim (Option-cases (country_of_token u token)) [
    | inl absent ↦ rw (absent, country_in_tokens) (country_in_tokens-Valid tokens)
    | inr (code, found) ↦
        rw (found, country_in_tokens) (Valid-some code (country_of_token-Valid token code found))
  ]

  extract_country_from_lines-Valid :
      (lines : List Text) → Valid (extract_country_from_lines u lines)
  unfolding extract_country_from_lines
  extract_country_from_lines-Valid [] = Valid-none
  extract_country_from_lines-Valid (line ∷ lines) =
      elim (Option-cases (country_in_tokens u (split_commas line))) [
        | inl absent ↦
            rw (absent, extract_country_from_lines) (extract_country_from_lines-Valid lines)
        | inr (code, found) ↦
            rw (found, extract_country_from_lines)
              (Valid-some code (country_in_tokens-Valid (split_commas line) code found))
      ]

  derived-Valid : (o : Option Text) → Valid o → Valid (country_code_of (derived_or_unknown o))
  derived-Valid none v = Valid-none
  derived-Valid (some code) v = v

  resolve_country-Valid :
      KeepsCapitals u
      → (country : Option Text) (lines : List Text)
      → Valid (country_code_of (resolve_country u country lines))
  unfolding resolve_country
  resolve_country-Valid keeps none lines = derived-Valid _ (extract_country_from_lines-Valid lines)
  resolve_country-Valid keeps (some []) lines =
      derived-Valid _ (extract_country_from_lines-Valid lines)
  resolve_country-Valid keeps (some (c ∷ s)) lines =
      elim (Bool-cases (is_valid_country_code (c ∷ s))) [
        | inl v ↦ rw v (Valid-some _ (rw (upper-valid u keeps (c ∷ s) v) v))
        | inr other ↦ rw other (derived-Valid _ (normalize_country_name-Valid u (c ∷ s)))
      ]

-- Whatever country the provider gives for an address, from its field or from its lines, is a valid
-- code, if the upper case of a capital letter is the letter.
pub analyze-country_code :
    (u : Unicode) (a : PostalAddress) (code : Text)
    → KeepsCapitals u
    → (analyze u a).country_code ≡ some code
    → is_valid_country_code code ≡ true
unfolding analyze conclude
analyze-country_code u a code keeps = resolve_country-Valid u keeps a.country a.address_lines code

-- ===== src/Addresses/Tests.antt =====
-- Runs of the deterministic provider on an address in lines, and the theorems on them.
use payment_ops.Prelude.{◌≡◌, refl, ◌↔◌, true, false, some, [], ◌∷◌, codes, text_eq, find, arith}
use payment_ops.Unicode.{split_on, strip, lstrip, is_space, upper, translate, add_char}
use payment_ops.Unicode.Ascii.{ascii}
use payment_ops.Domain.Payment.{PostalAddress, ready}
use payment_ops.Domain.Countries.{
  is_valid_country_code, valid_country_codes, normalize_country_name, country_name_to_code,
}
use payment_ops.Domain.Samples.{blank_address}
use payment_ops.Matching.Names.{join_tokens}
use payment_ops.Addresses.{
  AddressAnalysis, analyze, split_words, normalize_whitespace, split_commas, strip_pieces,
  country_of_token, country_in_tokens, extract_country_from_lines, resolve_country, conclude,
  is_town, is_country_token, town_in_tokens, extract_town_from_lines,
}
use payment_ops.Addresses.Ready.{analyze-ready_iff}
use payment_ops.Addresses.Valid.{KeepsCapitals, analyze-country_code}

abbrev lines : PostalAddress
lines = record blank_address { address_lines = codes "Berlin,  Germany" ∷ [] }

-- A provider that is never available.
abbrev down : PostalAddress → AddressAnalysis
down a = record (analyze ascii a) { available = false }

finds_berlin : (analyze ascii lines).town_name ≡ some (codes "Berlin")
unfolding analyze conclude resolve_country extract_country_from_lines country_in_tokens
    country_of_token split_commas strip_pieces split_on add_char strip lstrip is_space
    normalize_whitespace split_words is_valid_country_code valid_country_codes
    normalize_country_name country_name_to_code upper translate text_eq extract_town_from_lines
    town_in_tokens is_country_token is_town join_tokens find
finds_berlin = refl

ascii-KeepsCapitals : KeepsCapitals ascii
unfolding KeepsCapitals
ascii-KeepsCapitals c from to = ground arith

analyze-ready_iff_example :
    ((analyze ascii lines).readiness ≡ ready) ↔ ((true ≡ false) × (false ≡ false) × (false ≡ true))
analyze-ready_iff_example = analyze-ready_iff ascii lines

analyze-country_code_example : is_valid_country_code (codes "DE") ≡ true
unfolding analyze conclude resolve_country extract_country_from_lines country_in_tokens
    country_of_token split_commas strip_pieces split_on add_char strip lstrip is_space
    normalize_whitespace split_words is_valid_country_code valid_country_codes
    normalize_country_name country_name_to_code upper translate text_eq join_tokens find
analyze-country_code_example =
    analyze-country_code ascii lines (codes "DE") ascii-KeepsCapitals refl

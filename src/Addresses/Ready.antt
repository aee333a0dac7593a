-- ===== src/Addresses/Ready.antt =====
-- The readiness that the deterministic provider gives, beside the rules on addresses.
use payment_ops.Prelude.{
  ℕ, ◌+◌, ◌≡◌, refl, ◌↔◌, Bool, true, false, not, ◌&&◌, Option, none, some, List, [], ◌∷◌, Text,
  text_eq, truthy, is_some, arith,
}
use payment_ops.Unicode.{Unicode}
use payment_ops.Domain.Payment.{ready, PostalAddress}
use payment_ops.Domain.Countries.{
  is_valid_country_code, valid_country_codes, normalize_country_name,
}
use payment_ops.Rules.Address.{lacks_country, has_invalid_country, invalid_country}
use payment_ops.Addresses.{
  AddressAnalysis, country_ok, derived_or_unknown, source_town, classify_readiness, resolve_country,
  conclude, analyze_with_fallback, extract_country_from_lines, analyze,
}

country_ok-derived_or_unknown : (o : Option Text) → country_ok (derived_or_unknown o) ≡ false
country_ok-derived_or_unknown none = refl
country_ok-derived_or_unknown (some code) = refl

is_valid_country_code-nil : is_valid_country_code [] ≡ false
unfolding is_valid_country_code valid_country_codes text_eq
is_valid_country_code-nil = refl

country_ok-resolve_country :
    (u : Unicode) (country : Option Text) (lines : List Text)
    → country_ok (resolve_country u country lines)
      ≡ (is_some country && not (invalid_country country))
unfolding resolve_country
country_ok-resolve_country u none lines = country_ok-derived_or_unknown _
country_ok-resolve_country u (some []) lines =
    rw is_valid_country_code-nil
      (country_ok-derived_or_unknown (extract_country_from_lines u lines))
country_ok-resolve_country u (some (c ∷ s)) lines =
    ground (arith, country_ok-derived_or_unknown (normalize_country_name u (c ∷ s)))

classify_readiness-ready :
    (ok_c ok_t repair_c repair_t signal : Bool)
    → (classify_readiness ok_c ok_t repair_c repair_t signal ≡ ready)
      ↔ ((ok_c ≡ true) × (ok_t ≡ true))
unfolding classify_readiness
classify_readiness-ready ok_c ok_t repair_c repair_t signal = ground arith

module _ (u : Unicode) (a : PostalAddress) where
  readiness-analyze : ((analyze u a).readiness ≡ ready) ↔ (
      (country_ok (resolve_country u a.country a.address_lines) ≡ true)
      × (truthy (source_town a) ≡ true))
  unfolding analyze conclude
  readiness-analyze = classify_readiness-ready _ _ _ _ _

  -- The provider calls an address ready exactly if the rules on missing and on invalid countries
  -- have nothing to report on it, and its town is there and not blank.
  pub analyze-ready_iff : ((analyze u a).readiness ≡ ready) ↔ (
      (lacks_country a ≡ false) × (has_invalid_country a ≡ false) × (truthy (source_town a) ≡ true))
  analyze-ready_iff =
      ground (arith, readiness-analyze, country_ok-resolve_country u a.country a.address_lines)

available-analyze : (u : Unicode) (a : PostalAddress) → (analyze u a).available ≡ true
unfolding analyze conclude
available-analyze u a = refl

-- With the deterministic provider behind one that is not available, the analysis is available, has
-- the country, the town and the readiness of the deterministic one, is marked as a fallback, and is
-- counted.
pub analyze_with_fallback-available :
    (u : Unicode) (primary : PostalAddress → AddressAnalysis) (a : PostalAddress) (count : ℕ)
    → (primary a).available ≡ false
    → ((analyze_with_fallback primary (analyze u) a count).0.available ≡ true)
      × ((analyze_with_fallback primary (analyze u) a count).0.country_code
          ≡ (analyze u a).country_code)
      × ((analyze_with_fallback primary (analyze u) a count).0.town_name ≡ (analyze u a).town_name)
      × ((analyze_with_fallback primary (analyze u) a count).0.readiness ≡ (analyze u a).readiness)
      × ((analyze_with_fallback primary (analyze u) a count).0.fallback ≡ true)
      × ((analyze_with_fallback primary (analyze u) a count).1 ≡ count + 1)
unfolding analyze_with_fallback
analyze_with_fallback-available u primary a count down =
    rw down (available-analyze u a, refl, refl, refl, refl, refl)

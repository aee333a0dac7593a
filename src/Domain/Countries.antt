-- ===== src/Domain/Countries.antt =====
-- packages/payment_domain/countries.py: the country codes that count as valid, and the names that
-- are mapped to a code.
use payment_ops.Prelude.{
  Bool, Option, none, some, List, [], ◌∷◌, String, Text, codes, text_eq, any, find,
}
use payment_ops.Unicode.{Unicode, strip, upper}

unfoldable pub valid_country_codes : List String
valid_country_codes =
    "AD" ∷ "AE" ∷ "AR" ∷ "AT" ∷ "AU" ∷ "BE" ∷ "BG" ∷ "BR" ∷ "CA" ∷ "CH" ∷ "CN" ∷ "CY" ∷ "CZ" ∷ "DE"
    ∷ "DK" ∷ "EE" ∷ "ES" ∷ "FI" ∷ "FR" ∷ "GB" ∷ "GR" ∷ "HR" ∷ "HU" ∷ "IE" ∷ "IL" ∷ "IN" ∷ "IS"
    ∷ "IT" ∷ "JP" ∷ "KR" ∷ "LI" ∷ "LT" ∷ "LU" ∷ "LV" ∷ "MC" ∷ "MT" ∷ "MX" ∷ "NL" ∷ "NO" ∷ "NZ"
    ∷ "PL" ∷ "PT" ∷ "RO" ∷ "RS" ∷ "RU" ∷ "SE" ∷ "SI" ∷ "SK" ∷ "SM" ∷ "TR" ∷ "UA" ∷ "US" ∷ "ZA" ∷ []

unfoldable pub country_name_to_code : List (String × String)
country_name_to_code =
    ("AUSTRIA", "AT")
    ∷ ("BELGIUM", "BE")
    ∷ ("BULGARIA", "BG")
    ∷ ("BRAZIL", "BR")
    ∷ ("CANADA", "CA")
    ∷ ("SWITZERLAND", "CH")
    ∷ ("CHINA", "CN")
    ∷ ("CYPRUS", "CY")
    ∷ ("CZECHIA", "CZ")
    ∷ ("CZECH REPUBLIC", "CZ")
    ∷ ("GERMANY", "DE")
    ∷ ("DENMARK", "DK")
    ∷ ("ESTONIA", "EE")
    ∷ ("SPAIN", "ES")
    ∷ ("FINLAND", "FI")
    ∷ ("FRANCE", "FR")
    ∷ ("UNITED KINGDOM", "GB")
    ∷ ("GREECE", "GR")
    ∷ ("CROATIA", "HR")
    ∷ ("HUNGARY", "HU")
    ∷ ("IRELAND", "IE")
    ∷ ("ISRAEL", "IL")
    ∷ ("INDIA", "IN")
    ∷ ("ICELAND", "IS")
    ∷ ("ITALY", "IT")
    ∷ ("JAPAN", "JP")
    ∷ ("LIECHTENSTEIN", "LI")
    ∷ ("LITHUANIA", "LT")
    ∷ ("LUXEMBOURG", "LU")
    ∷ ("LATVIA", "LV")
    ∷ ("MONACO", "MC")
    ∷ ("MALTA", "MT")
    ∷ ("MEXICO", "MX")
    ∷ ("NETHERLANDS", "NL")
    ∷ ("NORWAY", "NO")
    ∷ ("NEW ZEALAND", "NZ")
    ∷ ("POLAND", "PL")
    ∷ ("PORTUGAL", "PT")
    ∷ ("ROMANIA", "RO")
    ∷ ("SERBIA", "RS")
    ∷ ("RUSSIA", "RU")
    ∷ ("SWEDEN", "SE")
    ∷ ("SLOVENIA", "SI")
    ∷ ("SLOVAKIA", "SK")
    ∷ ("SAN MARINO", "SM")
    ∷ ("TURKEY", "TR")
    ∷ ("UKRAINE", "UA")
    ∷ ("UNITED STATES", "US")
    ∷ ("UNITED STATES OF AMERICA", "US")
    ∷ ("SOUTH AFRICA", "ZA")
    ∷ []

unfoldable pub is_valid_country_code : Text → Bool
is_valid_country_code code = any (λ c. text_eq (codes c) code) valid_country_codes

abbrev code_of : Option (String × String) → Option Text
code_of none = none
code_of (some (_, code)) = some (codes code)

unfoldable pub normalize_country_name : Unicode → Text → Option Text
normalize_country_name u name =
    code_of (find (λ entry. text_eq (codes entry.0) (upper u (strip name))) country_name_to_code)

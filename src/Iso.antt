-- ===== src/Iso.antt =====
-- packages/iso_engine/common.py and parties.py: the parts that the adapters of ISO 20022 messages
-- share. The numbers and the dates of Python's library are parameters.
pub mod Parties
pub mod Pacs008
pub mod Pain001
pub mod Pacs009
pub mod Pacs002
pub mod Entries
pub mod Camt
pub mod Versions
pub mod Registry
pub mod Paths
pub mod Samples
mod Tests
use payment_ops.Prelude.{
  ℕ, Bool, true, false, Option, none, some, List, [], ◌∷◌, ◌++◌, Text, codes, ◌==◌, ◌>>=◌, truthy,
  if◌then◌else◌,
}
use payment_ops.Prelude.Int.{ℤ}
use payment_ops.Unicode.{translate}
use payment_ops.Xml.{Node, child, text}

-- `int(round(float(s) * 100))`: a value, a `ValueError`, or an `OverflowError` for an infinite one.
pub data FloatCents : Type 0 where
  cents : ℤ → FloatCents
  value_error overflow : FloatCents

pub record Formats : Type 0 where
  -- `int(round(Decimal(s) * 100))`; `none` is an exception.
  pub decimal_cents : Text → Option ℤ
  pub float_cents : Text → FloatCents
  -- `datetime.fromisoformat` and `date.fromisoformat`; `none` is a `ValueError`.
  pub datetime_of : Text → Option ℕ
  pub date_of : Text → Option ℕ

-- `value.replace("Z", "+00:00")`
abbrev replace_zone : Text → Text
replace_zone value = translate (λ c. if c == b'Z' then codes "+00:00" else c ∷ []) value

unfoldable pub parse_datetime : Formats → Option Text → Option ℕ
parse_datetime f value =
    if truthy value then (value >>= λ s. f.datetime_of (replace_zone s)) else none

-- `nested_text`
unfoldable pub nested_text : Option Node → List Text → Option Text
nested_text none names = none
nested_text (some n) [] = text (some n)
nested_text (some n) (name ∷ names) = nested_text (child (some n) name) names

-- What the adapters read of a supported version (`SupportedVersion`).
pub record SupportedVersion : Type 0 where
  pub identifier : Text
  pub message_name : Text
  pub namespace : Text
  pub root_element : Text

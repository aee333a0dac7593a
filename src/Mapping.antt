-- ===== src/Mapping.antt =====
-- packages/mapping_engine: declarative mappings of customer records to payment messages. Here:
-- models.py, and the values that records hold.
pub mod Selectors
pub mod Transforms
pub mod Validator
pub mod Fresh
pub mod Index
pub mod Targets
pub mod Mapper
pub mod Unrepaired
mod Tests
use payment_ops.Prelude.{ℕ, String, Bool, Option, List, Text}
use payment_ops.Prelude.Int.{ℤ}
use payment_ops.Domain.Payment.{PaymentMessage}
use payment_ops.Matching.Numbers.{Numbers}

pub data SourceFormat : Type 0 where
  json csv custom_xml : SourceFormat

pub data FieldRequirement : Type 0 where
  required optional conditional : FieldRequirement

pub data MappingSeverity : Type 0 where
  info warning error : MappingSeverity

pub record FieldMapping : Type 0 where
  pub source : Text
  pub target : Text
  pub required : FieldRequirement
  pub transforms : List String
  pub default : Option Text

pub record MappingDefinition : Type 0 where
  pub mapping_version : Text
  pub source_format : SourceFormat
  pub record_selector : Option Text
  pub fields : List FieldMapping

-- The message is a text for the operator and is left out.
pub record MappingIssue : Type 0 where
  pub code : String
  pub severity : MappingSeverity
  pub path : Option Text

pub record MappingResult : Type 0 where
  pub message : PaymentMessage
  pub mapping_version : Text
  pub issues : List MappingIssue

module _ (n : Numbers) where
  -- A value of a record: what JSON has, and the decimal that a transform makes. `null` is `None`.
  mutual
    pub data Value : Type 0 where
      null : Value
      boolean : Bool → Value
      text : Text → Value
      integer : ℤ → Value
      float : n.Float → Value
      decimal : n.Decimal → Value
      array : Items → Value
      object : Members → Value

    pub data Items : Type 0 where
      end : Items
      item : Value → Items → Items

    pub data Members : Type 0 where
      none_left : Members
      member : Text → Value → Members → Members

  -- What the engine takes from lxml, `decimal`, `datetime` and Python's numbers; `none` is an
  -- exception.
  pub record Library : Type 1 where
    pub Element : Type 0
    -- The elements that a record selector finds.
    pub nodes : Element → Text → Option (List Element)
    -- The texts of what a field's expression finds.
    pub texts : Element → Text → Option (List Text)
    -- `str(value)` of a value that is no text.
    pub show : Value → Text
    -- `Decimal(s)`
    pub parse_decimal : Text → Option n.Decimal
    -- The ISO form of a date in one of the four formats.
    pub parse_datetime : Text → Option Text
    -- `int(round(x * 100))` of a number.
    pub minor : Value → Option ℤ

-- ===== src/Iso/Samples.antt =====
-- Numbers, dates and schemas for tests.
use payment_ops.Prelude.{none, [], ◌∷◌}
use payment_ops.Domain.Payment.{PaymentMessage}
use payment_ops.Iso.{Formats, value_error}
use payment_ops.Iso.Pacs008.{transaction_path, transaction_of, message_of}
use payment_ops.Iso.Versions.{pacs_008}
use payment_ops.Xml.Samples.{payment, document}

-- No number and no date can be read.
abbrev pub formats : Formats
formats = record {
  decimal_cents = λ s. none;
  float_cents = λ s. value_error;
  datetime_of = λ s. none;
  date_of = λ s. none;
}

abbrev pub message : PaymentMessage
message =
    message_of formats document pacs_008 (transaction_of payment (transaction_path 0) none ∷ [])

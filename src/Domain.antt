-- ===== src/Domain.antt =====
-- packages/payment_domain/models.py: the canonical models. A `str` is a `Text`, a date the number
-- of its day, a timestamp a number of seconds, and an enumeration a data type. Fields that no
-- modelled code reads or writes (names in other scripts, raw payloads, hashes) are kept where the
-- record is small and left out of `AccountEntry`, `Party` and `PaymentMessage`.
pub mod Payment
pub mod Account
pub mod Lifecycle
pub mod Countries
pub mod Samples

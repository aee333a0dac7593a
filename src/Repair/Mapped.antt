-- ===== src/Repair/Mapped.antt =====
-- What `_apply_to_message` does with the paths that packages/mapping_engine/mapper.py gives to the
-- addresses it fills in: `transactions[i]/Dbtr/PstlAdr` and `transactions[i]/Cdtr/PstlAdr`.
use payment_ops.Prelude.{
  ℕ, ◌≡◌, refl, Bool, true, false, Option, some, List, [], ◌∷◌, ◌++◌, Text, codes, ◌==◌, arith,
  if◌then◌else◌, All,
}
use payment_ops.Unicode.{
  Unicode, split_on, add_char, strip_brackets, lstrip_brackets, parse_int, parse_signed,
  parse_digits, digit, strip, lstrip, is_space,
}
use payment_ops.Domain.Payment.{PaymentMessage}
use payment_ops.Repair.{
  DiffEntry, drop_empty, segments, change_segment, change_segments, apply_change, apply_to_message,
}

-- No separator in a piece.
unfoldable pub lacks : ℕ → Text → Bool
lacks sep [] = true
lacks sep (c ∷ s) = if c == sep then false else lacks sep s

-- A piece without a separator is split off whole.
split_on-append :
    (sep : ℕ) (piece rest : Text)
    → lacks sep piece ≡ true
    → split_on sep (piece ++ sep ∷ rest) ≡ piece ∷ split_on sep rest
unfolding lacks split_on add_char
split_on-append sep [] rest h = first (split_on sep rest)
  where
    first : (pieces : List Text) → add_char sep sep pieces ≡ [] ∷ pieces
    first [] = ground arith
    first (p ∷ ps) = ground arith
split_on-append sep (c ∷ piece) rest h = ground (arith, split_on-append sep piece rest)

segments-append :
    (c : ℕ) (piece rest : Text)
    → lacks b'/' (c ∷ piece) ≡ true
    → segments ((c ∷ piece) ++ b'/' ∷ rest) ≡ (c ∷ piece) ∷ segments rest
unfolding segments drop_empty
segments-append c piece rest h = rw (split_on-append b'/' (c ∷ piece) rest h) refl

-- The path of a change to an address that the mapper filled in, behind `transactions[i]`.
pub data MappedTail : Text → Type 0 where
  debtor_country : MappedTail (codes "Dbtr/PstlAdr/Ctry")
  debtor_town : MappedTail (codes "Dbtr/PstlAdr/TwnNm")
  creditor_country : MappedTail (codes "Cdtr/PstlAdr/Ctry")
  creditor_town : MappedTail (codes "Cdtr/PstlAdr/TwnNm")

-- The first segment is not empty and holds no separator.
pub record IsMapped (change : DiffEntry) : Type 0 where
  pub head : ℕ
  pub piece : Text
  pub tail : Text
  pub one_segment : lacks b'/' (head ∷ piece) ≡ true
  pub path : change.path ≡ (head ∷ piece) ++ b'/' ∷ tail
  pub mapped : MappedTail tail

module _ (u : Unicode) where
  change_segments-mapped :
      (s : Text) (after : Option Text) (message : PaymentMessage) {tail : Text}
      → MappedTail tail
      → change_segments u (s ∷ segments tail) after message ≡ some message
  unfolding change_segments change_segment segments drop_empty split_on add_char parse_int
      parse_signed parse_digits digit strip_brackets lstrip_brackets strip lstrip is_space
  change_segments-mapped s after message debtor_country = refl
  change_segments-mapped s after message debtor_town = refl
  change_segments-mapped s after message creditor_country = refl
  change_segments-mapped s after message creditor_town = refl

  -- A change to an address that the mapper filled in is passed over.
  apply_change-mapped :
      (change : DiffEntry) (message : PaymentMessage)
      → IsMapped change
      → apply_change u change message ≡ some message
  unfolding apply_change
  apply_change-mapped change message m =
      rw (m.path, segments-append m.head m.piece m.tail m.one_segment)
        (change_segments-mapped (m.head ∷ m.piece) change.after message m.mapped)

  -- So are all of them: the message that is validated again is the message as it came.
  pub apply_to_message-mapped :
      (changes : List DiffEntry) (message : PaymentMessage)
      → All IsMapped changes
      → apply_to_message u changes message ≡ some message
  unfolding apply_to_message
  apply_to_message-mapped [] message h = refl
  apply_to_message-mapped (change ∷ rest) message h =
      rw (apply_change-mapped change message h.0, apply_to_message)
        (apply_to_message-mapped rest message h.1)

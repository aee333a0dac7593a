-- ===== src/Mapping/Targets.antt =====
-- packages/mapping_engine/mapper.py: how a value goes to the place in a transaction that a target
-- names. `none` is an exception.
use payment_ops.Prelude.{
  Option, none, some, List, [], ◌∷◌, ◌++◌, Text, codes, text_eq, if◌then◌else◌, ◌>>=◌, String,
  str_eq,
}
use payment_ops.Prelude.Int.{ℤ, pos}
use payment_ops.Unicode.{Unicode, upper, strip, split_on}
use payment_ops.Domain.Payment.{
  MonetaryAmount, Account, FinancialInstitution, PostalAddress, Party, RemittanceInformation,
  PaymentTransaction,
}
use payment_ops.Matching.Numbers.{Numbers}
use payment_ops.Matching.Evaluate.{take}
use payment_ops.Repair.{drop_empty}
use payment_ops.Mapping.{Value, null, text, decimal, array, object, Library}
use payment_ops.Mapping.Transforms.{comma_to_dot}
use payment_ops.Mapping.Fresh.{new_address, new_account, new_agent, new_party, new_remittance}

-- `x or X()` of a model.
abbrev pub or_new {ℓ} : {A : Type ℓ} → A → Option A → A
or_new fresh none = fresh
or_new fresh (some x) = x

-- `original_fields["Ctry"] = value`
unfoldable pub put_field : String → Text → List (String × Text) → List (String × Text)
put_field k v [] = (k, v) ∷ []
put_field k v ((j, w) ∷ rest) =
    let behind = put_field k v rest in if str_eq j k then (k, v) ∷ rest else (j, w) ∷ behind

unfoldable pub set_address_field : Text → Text → PostalAddress → PostalAddress
set_address_field field value a =
    if text_eq field (codes "street_name")
    then record a { street_name = some value }
    else if text_eq field (codes "building_number")
    then record a { building_number = some value }
    else if text_eq field (codes "postcode")
    then record a { postcode = some value }
    else if text_eq field (codes "town_name")
    then record a { town_name = some value }
    else if text_eq field (codes "country")
    then record a {
      country = some value;
      original_fields = put_field "Ctry" value a.original_fields;
    }
    else if text_eq field (codes "address_lines")
    then record a { address_lines = a.address_lines ++ value ∷ [] }
    else a

-- `_set_address`
unfoldable pub set_address : Text → List Text → Text → PostalAddress → PostalAddress
set_address path [] value a = a
set_address path (field ∷ rest) value a =
    set_address_field field value (record a { source_path = some path })

-- `_set_party`, once there is a segment.
unfoldable pub set_party : Text → Text → List Text → Text → Party → Party
set_party path field rest value p =
    if text_eq field (codes "name")
    then record p { name = some value }
    else if text_eq field (codes "postal_address")
    then record p {
      postal_address = some (set_address path rest value (or_new new_address p.postal_address));
    }
    else p

-- `_set_account` and `_set_agent`
unfoldable pub set_account : List Text → Text → Account → Account
set_account [] value a = a
set_account (field ∷ rest) value a =
    if text_eq field (codes "iban")
    then record a { iban = some value }
    else if text_eq field (codes "name")
    then record a { name = some value }
    else if text_eq field (codes "other_identification")
    then record a { other_identification = some value }
    else a

unfoldable pub set_agent : List Text → Text → FinancialInstitution → FinancialInstitution
set_agent [] value a = a
set_agent (field ∷ rest) value a =
    if text_eq field (codes "bic")
    then record a { bic = some value }
    else if text_eq field (codes "name")
    then record a { name = some value }
    else a

unfoldable pub set_remittance : List Text → Text → RemittanceInformation → RemittanceInformation
set_remittance [] value r = r
set_remittance (field ∷ rest) value r =
    if text_eq field (codes "unstructured")
    then record r { unstructured = r.unstructured ++ value ∷ [] }
    else r

-- What the first segment of a target names.
pub data Part : Type 0 where
  amount instruction_id end_to_end_id transaction_id debtor creditor : Part
  debtor_account creditor_account debtor_agent creditor_agent remittance other : Part

unfoldable pub part_of : Text → Part
part_of s =
    if text_eq s (codes "amount")
    then amount
    else if text_eq s (codes "instruction_id")
    then instruction_id
    else if text_eq s (codes "end_to_end_id")
    then end_to_end_id
    else if text_eq s (codes "transaction_id")
    then transaction_id
    else if text_eq s (codes "debtor")
    then debtor
    else if text_eq s (codes "creditor")
    then creditor
    else if text_eq s (codes "debtor_account")
    then debtor_account
    else if text_eq s (codes "creditor_account")
    then creditor_account
    else if text_eq s (codes "debtor_agent")
    then debtor_agent
    else if text_eq s (codes "creditor_agent")
    then creditor_agent
    else if text_eq s (codes "remittance")
    then remittance
    else other

module _ (n : Numbers) (l : Library n) (u : Unicode) where
  -- `str(value)`
  unfoldable pub show_value : Value n → Text
  show_value (text s) = s
  show_value v = l.show v

  abbrev or_zero : Option ℤ → ℤ
  or_zero none = pos 0
  or_zero (some m) = m

  -- `_to_minor`
  unfoldable pub to_minor : Value n → Option ℤ
  to_minor null = some (pos 0)
  to_minor (text s) =
      some (or_zero (l.parse_decimal (comma_to_dot (strip s)) >>= λ d. l.minor (decimal d)))
  to_minor (array _) = some (pos 0)
  to_minor (object _) = some (pos 0)
  to_minor v = l.minor v

  unfoldable pub set_amount : Text → Value n → MonetaryAmount → Option MonetaryAmount
  set_amount field v a =
      if text_eq field (codes "amount_minor")
      then (do m ← to_minor v; some (record a { amount_minor = m }))
      else if text_eq field (codes "currency")
      then some (record a { currency = upper u (take 3 (show_value v)) })
      else some a

  unfoldable pub set_part :
      Text → Part → List Text → Value n → PaymentTransaction → Option PaymentTransaction
  set_part prefix amount [] v tx = some tx
  set_part prefix amount (field ∷ rest) v tx = do
    a ←
        set_amount field v
          (or_new (record { amount_minor = pos 0; currency = codes "EUR" }) tx.amount)
    some (record tx { amount = some a })
  set_part prefix instruction_id rest v tx =
      some (record tx { instruction_id = some (show_value v) })
  set_part prefix end_to_end_id rest v tx = some (record tx { end_to_end_id = some (show_value v) })
  set_part prefix transaction_id rest v tx =
      some (record tx { transaction_id = some (show_value v) })
  set_part prefix debtor [] v tx = some tx
  set_part prefix debtor (field ∷ rest) v tx = some (record tx {
    debtor = some (
        set_party (prefix ++ codes "/Dbtr/PstlAdr") field rest (show_value v)
          (or_new new_party tx.debtor));
  })
  set_part prefix creditor [] v tx = some tx
  set_part prefix creditor (field ∷ rest) v tx = some (record tx {
    creditor = some (
        set_party (prefix ++ codes "/Cdtr/PstlAdr") field rest (show_value v)
          (or_new new_party tx.creditor));
  })
  set_part prefix debtor_account rest v tx = some (record tx {
    debtor_account = some (set_account rest (show_value v) (or_new new_account tx.debtor_account));
  })
  set_part prefix creditor_account rest v tx = some (record tx {
    creditor_account =
        some (set_account rest (show_value v) (or_new new_account tx.creditor_account));
  })
  set_part prefix debtor_agent rest v tx = some (record tx {
    debtor_agent = some (set_agent rest (show_value v) (or_new new_agent tx.debtor_agent));
  })
  set_part prefix creditor_agent rest v tx = some (record tx {
    creditor_agent = some (set_agent rest (show_value v) (or_new new_agent tx.creditor_agent));
  })
  set_part prefix remittance rest v tx = some (record tx {
    remittance = some (set_remittance rest (show_value v) (or_new new_remittance tx.remittance));
  })
  set_part prefix other rest v tx = some tx

  unfoldable pub set_segments :
      Text → List Text → Value n → PaymentTransaction → Option PaymentTransaction
  set_segments prefix [] v tx = some tx
  set_segments prefix (s ∷ rest) v tx = set_part prefix (part_of s) rest v tx

  -- `_set_target`
  unfoldable pub set_target : Text → Text → Value n → PaymentTransaction → Option PaymentTransaction
  set_target prefix target v tx = set_segments prefix (drop_empty (split_on b'.' target)) v tx

-- ===== src/Iso/Entries.antt =====
-- packages/iso_engine/account/entries.py: the accounts, balances and entries of account reports.
use mathlib.Core.Option
use payment_ops.Prelude.{
  ℕ, zero, suc, Option, none, some, List, [], ◌∷◌, ◌++◌, Text, codes, text_eq, or_else, truthy,
  ◌>>=◌, if◌then◌else◌,
}
use payment_ops.Domain.Payment.{MonetaryAmount}
use payment_ops.Domain.Account.{
  AccountReference, AccountBalance, AccountEntry, BalanceType, opening, closing, interim, available,
  forward_available, BankTransactionCode, CreditDebitIndicator, crdt, dbit,
}
use payment_ops.Xml.{Node, attributes_of, child, children, text, child_text, attribute, first}
use payment_ops.Iso.{Formats}
use payment_ops.Iso.Parties.{map_amount, map_party}

unfoldable pub map_account : Option Node → Option AccountReference
map_account none = none
map_account (some n) =
    let id_el = child (some n) (codes "Id") in
    some (record {
      iban = child_text id_el (codes "IBAN");
      other_identification = child_text (child id_el (codes "Othr")) (codes "Id");
      currency = child_text (some n) (codes "Ccy");
      name = child_text (some n) (codes "Nm");
      servicer_bic =
          child_text (child (child (some n) (codes "Svcr")) (codes "FinInstnId")) (codes "BICFI");
    })

-- `BalanceType(code)`; `none` is a `ValueError`.
unfoldable pub balance_type : Text → Option BalanceType
balance_type code =
    if text_eq code (codes "OPBD")
    then some opening
    else if text_eq code (codes "CLBD")
    then some closing
    else if text_eq code (codes "ITBD")
    then some interim
    else if text_eq code (codes "AVLB")
    then some available
    else if text_eq code (codes "FWAV")
    then some forward_available
    else none

-- `CreditDebitIndicator(cdi) if cdi in ("CRDT", "DBIT") else None`
unfoldable pub indicator : Option Text → Option CreditDebitIndicator
indicator none = none
indicator (some cdi) =
    if text_eq cdi (codes "CRDT")
    then some crdt
    else if text_eq cdi (codes "DBIT")
    then some dbit
    else none

abbrev or_credit : Option CreditDebitIndicator → CreditDebitIndicator
or_credit none = crdt
or_credit (some i) = i

-- The type of a balance, if it is written and known.
unfoldable pub type_of : Option Node → Option BalanceType
type_of el =
    let tp = child el (codes "Tp") in
    or_else (child_text (child tp (codes "CdOrPrtry")) (codes "Cd")) (child_text tp (codes "Cd"))
    >>= balance_type

abbrev pub balance_of : Option Node → BalanceType → MonetaryAmount → AccountBalance
balance_of el type amount = record {
  type = type;
  amount = amount;
  credit_debit = or_credit (indicator (child_text el (codes "CdtDbtInd")));
}

-- The amount is read only if the type is known; `none` is the `ValidationError` of the amount.
unfoldable pub map_balance : Formats → Option Node → Option (Option AccountBalance)
map_balance f el = elim (type_of el) [
  | none ↦ some none
  | some type ↦ Option.map (Option.map (balance_of el type)) (map_amount f (child el (codes "Amt")))
]

-- `value[:n]`
unfoldable pub prefix : ℕ → Text → Text
prefix zero s = []
prefix (suc n) [] = []
prefix (suc n) (c ∷ s) = c ∷ prefix n s

abbrev pub date_of_text : Formats → Option Text → Option ℕ
date_of_text f value = if truthy value then (value >>= λ s. f.date_of (prefix 10 s)) else none

-- `_date`
unfoldable pub date_in : Formats → Option Node → Option ℕ
date_in f el = date_of_text f (or_else (child_text el (codes "Dt")) (child_text el (codes "DtTm")))

-- `_bank_tx_code`
unfoldable pub bank_tx_code : Option Node → Option BankTransactionCode
bank_tx_code none = none
bank_tx_code (some n) =
    let domn = child (some n) (codes "Domn") in
    let fmly = child domn (codes "Fmly") in
    some (record {
      code = child_text domn (codes "Cd");
      proprietary = child_text (child (some n) (codes "Prtry")) (codes "Cd");
      family = child_text fmly (codes "Cd");
      sub_family = child_text fmly (codes "SubFmlyCd");
    })

-- `_remittance`: the first line.
unfoldable pub remittance : Option Node → Option Text
remittance tx = text (first (children (child tx (codes "RmtInf")) (codes "Ustrd")))

-- `_related_agents`
unfoldable pub related_agents : Option Node → List Text → List Text
related_agents tx [] = []
related_agents tx (name ∷ names) =
    let rest = related_agents tx names in
    elim (child_text (child (child (child tx (codes "RltdAgts")) name) (codes "FinInstnId"))
      (codes "BICFI")) [ none ↦ rest | some bic ↦ bic ∷ rest ]

-- The currency of the amount, or the one written in its element.
unfoldable pub currency_of_entry : Option MonetaryAmount → Option Node → Option Text
currency_of_entry amount none =
    or_else (Option.map (λ (a : MonetaryAmount). a.currency) amount) none
currency_of_entry amount (some el) =
    or_else (Option.map (λ (a : MonetaryAmount). a.currency) amount)
      (attribute (codes "Ccy") (attributes_of el))

unfoldable pub entry_of : Formats → Node → Text → Option MonetaryAmount → AccountEntry
entry_of f n path amount =
    let amount_el = child (some n) (codes "Amt") in
    let tx = child (child (some n) (codes "NtryDtls")) (codes "TxDtls") in
    let refs = child tx (codes "Refs") in
    let parties = child tx (codes "RltdPties") in
    let status_el = child (some n) (codes "Sts") in
    record {
      entry_reference = child_text (some n) (codes "NtryRef");
      account_servicer_reference = child_text (some n) (codes "AcctSvcrRef");
      transaction_id = child_text refs (codes "TxId");
      instruction_id = child_text refs (codes "InstrId");
      end_to_end_id = child_text refs (codes "EndToEndId");
      uetr = child_text refs (codes "UETR");
      amount = amount;
      currency = currency_of_entry amount amount_el;
      credit_debit = indicator (child_text (some n) (codes "CdtDbtInd"));
      booking_date = date_in f (child (some n) (codes "BookgDt"));
      value_date = date_in f (child (some n) (codes "ValDt"));
      status = or_else (text status_el) (child_text status_el (codes "Cd"));
      bank_transaction_code = bank_tx_code (child (some n) (codes "BkTxCd"));
      remittance_reference = remittance tx;
      debtor =
          map_party (child parties (codes "Dbtr"))
            (path ++ codes "/NtryDtls/TxDtls/RltdPties/Dbtr");
      creditor =
          map_party (child parties (codes "Cdtr"))
            (path ++ codes "/NtryDtls/TxDtls/RltdPties/Cdtr");
      related_agents = related_agents tx (codes "DbtrAgt" ∷ codes "CdtrAgt" ∷ []);
      original_message_reference = child_text refs (codes "AcctSvcrRef");
    }

-- `none` is the `ValidationError` of the amount.
unfoldable pub map_entry : Formats → Node → Text → Option AccountEntry
map_entry f n path =
    map_amount f (child (some n) (codes "Amt")) >>= λ amount. some (entry_of f n path amount)

unfoldable pub map_entries : Formats → List Node → Text → Option (List AccountEntry)
map_entries f [] path = some []
map_entries f (n ∷ ns) path =
    map_entry f n path >>= λ first. map_entries f ns path >>= λ rest. some (first ∷ rest)

abbrev with_balance : Option AccountBalance → List AccountBalance → List AccountBalance
with_balance none rest = rest
with_balance (some b) rest = b ∷ rest

-- The balances that there are.
unfoldable pub map_balances : Formats → List Node → Option (List AccountBalance)
map_balances f [] = some []
map_balances f (n ∷ ns) =
    map_balance f (some n) >>= λ first. map_balances f ns >>= λ rest. some (with_balance first rest)

-- ===== src/Repair.antt =====
-- packages/repair_engine: proposed changes of addresses (models.py, generator.py), and the status
-- of the candidate. The address provider is a parameter, as in the source; so is the rebuilding of
-- the XML document and its validation against the schema, which rest on lxml.
pub mod Candidate
pub mod Mapped
pub mod Rebuild
pub mod Document
mod Tests
use mathlib.Core.Option
use payment_ops.Prelude.{
  ℕ, zero, suc, ◌+◌, ◌-◌, String, Bool, true, false, not, ◌&&◌, Option, none, some, List, [], ◌∷◌,
  ◌++◌, Text, codes, text_eq, option_text_eq, truthy, or_else, nonempty, length, ltb, if◌then◌else◌,
  str_eq, find,
}
use payment_ops.Prelude.Int.{ℤ, pos, negsuc}
use payment_ops.Unicode.{Unicode, split_on, strip_brackets, parse_int}
use payment_ops.Domain.Payment.{
  CandidateStatus, review_required, PostalAddress, Party, PaymentTransaction, PaymentMessage,
  SourceFormat, xml_pacs_008,
}
use payment_ops.Rules.{Rule, RuleFinding, evaluate, blocking_findings}
use payment_ops.Rules.Address.{addresses}

pub data ChangeStatus : Type 0 where
  proposed validated rejected : ChangeStatus

pub data ChangeSource : Type 0 where
  address_provider rule normalization manual : ChangeSource

pub record DiffEntry : Type 0 where
  pub path : Text
  pub before : Option Text
  pub after : Option Text
  pub source : ChangeSource
  pub status : ChangeStatus

-- The identifier and the time of a candidate are left out.
pub record RepairCandidate : Type 0 where
  pub changes : List DiffEntry
  pub xml : Option Text
  pub status : CandidateStatus
  pub xsd_valid : Option Bool
  pub rule_findings : List RuleFinding
  pub note : Option String

-- The part of an address analysis that the generator reads.
pub record Analysis : Type 0 where
  pub country_code : Option Text
  pub town_name : Option Text

-- The candidate document that is rebuilt from the original one.
pub record Rebuilt : Type 0 where
  pub applied : List DiffEntry
  pub xml : Text
  pub xsd_valid : Bool
  pub message : PaymentMessage

-- `addr.original_fields.get(key)`
unfoldable pub get_field : String → List (String × Text) → Option Text
get_field key [] = none
get_field key ((k, v) ∷ rest) = if str_eq k key then some v else get_field key rest

-- A change where the provider has a value that differs from the raw one.
unfoldable pub propose : Text → String → Option Text → Option Text → List DiffEntry
propose base field raw suggestion =
    if truthy suggestion && not (option_text_eq raw suggestion)
    then record {
      path = base ++ codes field;
      before = raw;
      after = suggestion;
      source = address_provider;
      status = ChangeStatus.proposed;
    }
      ∷ []
    else []

unfoldable pub propose_at : Analysis → PostalAddress → Text → List DiffEntry
propose_at analysis addr base =
    propose base "/Ctry" (or_else (get_field "Ctry" addr.original_fields) addr.country)
      analysis.country_code
    ++ propose base "/TwnNm" (or_else (get_field "TwnNm" addr.original_fields) addr.town_name)
        analysis.town_name

module _ (analyze : PostalAddress → Analysis) where
  abbrev pub propose_address : Option Text → PostalAddress → List DiffEntry
  propose_address none addr = []
  propose_address (some []) addr = []
  propose_address (some (c ∷ path)) addr = propose_at (analyze addr) addr (c ∷ path)

  unfoldable pub propose_addresses : List (String × PostalAddress) → List DiffEntry
  propose_addresses [] = []
  propose_addresses ((label, addr) ∷ rest) =
      propose_address addr.source_path addr ++ propose_addresses rest

  unfoldable pub propose_changes : List PaymentTransaction → List DiffEntry
  propose_changes [] = []
  propose_changes (tx ∷ txs) = propose_addresses (addresses tx) ++ propose_changes txs

-- The pieces of a path that are not empty.
unfoldable pub drop_empty : List Text → List Text
drop_empty [] = []
drop_empty (s ∷ ss) = if nonempty s then s ∷ drop_empty ss else drop_empty ss

unfoldable pub segments : Text → List Text
segments path = drop_empty (split_on b'/' path)

unfoldable pub last_or_empty : List Text → Text
last_or_empty [] = []
last_or_empty (s ∷ []) = s
last_or_empty (s ∷ t ∷ ss) = last_or_empty (t ∷ ss)

unfoldable pub set_field : Text → Text → PostalAddress → PostalAddress
set_field field value addr =
    if text_eq field (codes "Ctry")
    then record addr { country = some value }
    else if text_eq field (codes "TwnNm")
    then record addr { town_name = some value }
    else addr

abbrev change_address :
    (PostalAddress → PostalAddress) → Option PostalAddress → Option PostalAddress
change_address f none = none
change_address f (some addr) = some (f addr)

abbrev change_party : (PostalAddress → PostalAddress) → Option Party → Option Party
change_party f none = none
change_party f (some p) = some (record p { postal_address = change_address f p.postal_address })

-- The party that the third segment names, where it has an address; agents are not reached.
unfoldable pub change_transaction :
    Text → (PostalAddress → PostalAddress) → PaymentTransaction → PaymentTransaction
change_transaction party f tx =
    if text_eq party (codes "Cdtr")
    then record tx { creditor = change_party f tx.creditor }
    else if text_eq party (codes "Dbtr")
    then record tx { debtor = change_party f tx.debtor }
    else tx

-- `transactions[i]` changed in place; `none` is an `IndexError`.
unfoldable pub change_at :
    ℕ
    → (PaymentTransaction → PaymentTransaction)
    → List PaymentTransaction
    → Option (List PaymentTransaction)
change_at i f [] = none
change_at zero f (tx ∷ txs) = some (f tx ∷ txs)
change_at (suc i) f (tx ∷ txs) = Option.map (λ rest. tx ∷ rest) (change_at i f txs)

-- A negative index counts from the end.
unfoldable pub change_index :
    ℤ
    → (PaymentTransaction → PaymentTransaction)
    → List PaymentTransaction
    → Option (List PaymentTransaction)
change_index (pos i) f txs = change_at i f txs
change_index (negsuc i) f txs =
    if ltb i (length txs) then change_at (length txs - suc i) f txs else none

abbrev change_function : Text → Option Text → PostalAddress → PostalAddress
change_function field none addr = addr
change_function field (some []) addr = addr
change_function field (some (c ∷ value)) addr = set_field field (c ∷ value) addr

unfoldable pub change_segment :
    Option ℤ → Text → Text → Option Text → PaymentMessage → Option PaymentMessage
change_segment none party field after message = some message
change_segment (some i) party field after message =
    Option.map (λ txs. record message { transactions = txs })
      (change_index i (change_transaction party (change_function field after)) message.transactions)

module _ (u : Unicode) where
  -- Fewer than four segments, or a second one that is no number: the change is passed over.
  unfoldable pub change_segments : List Text → Option Text → PaymentMessage → Option PaymentMessage
  change_segments (s0 ∷ s1 ∷ s2 ∷ s3 ∷ rest) after message =
      change_segment (parse_int u (strip_brackets s1)) s2 (last_or_empty (s3 ∷ rest)) after message
  change_segments _ after message = some message

  unfoldable pub apply_change : DiffEntry → PaymentMessage → Option PaymentMessage
  apply_change change message = change_segments (segments change.path) change.after message

  -- `_apply_to_message`
  unfoldable pub apply_to_message : List DiffEntry → PaymentMessage → Option PaymentMessage
  apply_to_message [] message = some message
  apply_to_message (change ∷ rest) message = elim (apply_change change message) [
    | none ↦ none
    | some m ↦ apply_to_message rest m
  ]

abbrev is_pacs_008 : SourceFormat → Bool
is_pacs_008 xml_pacs_008 = true
is_pacs_008 _ = false

unfoldable pub xml_candidate : List Rule → Rebuilt → RepairCandidate
xml_candidate rules r = record {
  changes = r.applied;
  xml = some r.xml;
  status =
      if r.xsd_valid && not (blocking_findings (evaluate rules r.message))
      then CandidateStatus.validated
      else review_required;
  xsd_valid = some r.xsd_valid;
  rule_findings = evaluate rules r.message;
  note = none;
}

unfoldable pub model_candidate : List Rule → List DiffEntry → PaymentMessage → RepairCandidate
model_candidate rules changes message = record {
  changes = changes;
  xml = none;
  status =
      if blocking_findings (evaluate rules message)
      then review_required
      else CandidateStatus.validated;
  xsd_valid = none;
  rule_findings = evaluate rules message;
  note = none;
}

abbrev unchanged_candidate : RepairCandidate
unchanged_candidate = record {
  changes = [];
  xml = none;
  status = CandidateStatus.validated;
  xsd_valid = none;
  rule_findings = [];
  note = some "No repair changes required";
}

-- The candidate for the changes: from the document if there is one and the message came as
-- pacs.008, else on the canonical model. `none` is an `IndexError`.
unfoldable pub candidate_for :
    Unicode
    → List Rule
    → Option (List DiffEntry → Rebuilt)
    → PaymentMessage
    → List DiffEntry
    → Option RepairCandidate
candidate_for u rules document message [] = some unchanged_candidate
candidate_for u rules none message (c ∷ cs) =
    Option.map (model_candidate rules (c ∷ cs)) (apply_to_message u (c ∷ cs) message)
candidate_for u rules (some rebuild) message (c ∷ cs) =
    if is_pacs_008 message.source_format
    then some (xml_candidate rules (rebuild (c ∷ cs)))
    else Option.map (model_candidate rules (c ∷ cs)) (apply_to_message u (c ∷ cs) message)

unfoldable pub generate_candidate :
    Unicode
    → (PostalAddress → Analysis)
    → List Rule
    → Option (List DiffEntry → Rebuilt)
    → PaymentMessage
    → Option RepairCandidate
generate_candidate u analyze rules document message =
    candidate_for u rules document message (propose_changes analyze message.transactions)

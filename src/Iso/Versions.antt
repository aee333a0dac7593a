-- ===== src/Iso/Versions.antt =====
-- packages/iso_engine/*/namespace.py and identifier.py: the supported versions, the namespaces that
-- are known beside them, and the identification of a document.
use mathlib.Core.List.{map}
use payment_ops.Prelude.{
  Option, none, some, List, [], ◌∷◌, Text, codes, text_eq, any, find, if◌then◌else◌,
}
use payment_ops.Xml.{Node, tag_of, contains, before_first, after_first, tail_of}
use payment_ops.Iso.{SupportedVersion}

pub data IdentifyError : Type 0 where
  no_element not_a_document unsupported_version unsupported_namespace : IdentifyError

pub data Identified : Type 0 where
  identified : SupportedVersion → Identified
  refused : IdentifyError → Identified

abbrev pub pacs_008 : SupportedVersion
pacs_008 = record {
  identifier = codes "pacs.008.001.08";
  message_name = codes "FIToFICustomerCreditTransferV08";
  namespace = codes "urn:iso:std:iso:20022:tech:xsd:pacs.008.001.08";
  root_element = codes "FIToFICstmrCdtTrf";
}

abbrev pub known_pacs_008_namespaces : List Text
known_pacs_008_namespaces = map codes (
    "urn:iso:std:iso:20022:tech:xsd:pacs.008.001.02"
    ∷ "urn:iso:std:iso:20022:tech:xsd:pacs.008.001.04"
    ∷ "urn:iso:std:iso:20022:tech:xsd:pacs.008.001.05"
    ∷ "urn:iso:std:iso:20022:tech:xsd:pacs.008.001.09"
    ∷ "urn:iso:std:iso:20022:tech:xsd:pacs.008.001.11"
    ∷ "urn:iso:std:iso:20022:tech:xsd:pacs.008.001.12" ∷ [])

abbrev pub pain_001 : SupportedVersion
pain_001 = record {
  identifier = codes "pain.001.001.13";
  message_name = codes "CustomerCreditTransferInitiationV13";
  namespace = codes "urn:iso:std:iso:20022:tech:xsd:pain.001.001.13";
  root_element = codes "CstmrCdtTrfInitn";
}

abbrev pub known_pain_001_namespaces : List Text
known_pain_001_namespaces = map codes (
    "urn:iso:std:iso:20022:tech:xsd:pain.001.001.03"
    ∷ "urn:iso:std:iso:20022:tech:xsd:pain.001.001.07"
    ∷ "urn:iso:std:iso:20022:tech:xsd:pain.001.001.09"
    ∷ "urn:iso:std:iso:20022:tech:xsd:pain.001.001.12" ∷ [])

abbrev pub pacs_002 : SupportedVersion
pacs_002 = record {
  identifier = codes "pacs.002.001.16";
  message_name = codes "FIToFIPaymentStatusReportV16";
  namespace = codes "urn:iso:std:iso:20022:tech:xsd:pacs.002.001.16";
  root_element = codes "FIToFIPmtStsRpt";
}

abbrev pub known_pacs_002_namespaces : List Text
known_pacs_002_namespaces = map codes (
    "urn:iso:std:iso:20022:tech:xsd:pacs.002.001.10"
    ∷ "urn:iso:std:iso:20022:tech:xsd:pacs.002.001.12" ∷ [])

abbrev pub pacs_009 : SupportedVersion
pacs_009 = record {
  identifier = codes "pacs.009.001.13";
  message_name = codes "FinancialInstitutionCreditTransferV13";
  namespace = codes "urn:iso:std:iso:20022:tech:xsd:pacs.009.001.13";
  root_element = codes "FICdtTrf";
}

abbrev pub known_pacs_009_namespaces : List Text
known_pacs_009_namespaces = map codes (
    "urn:iso:std:iso:20022:tech:xsd:pacs.009.001.08"
    ∷ "urn:iso:std:iso:20022:tech:xsd:pacs.009.001.10" ∷ [])

abbrev pub camt_053 : SupportedVersion
camt_053 = record {
  identifier = codes "camt.053.001.14";
  message_name = codes "BankToCustomerStatementV14";
  namespace = codes "urn:iso:std:iso:20022:tech:xsd:camt.053.001.14";
  root_element = codes "Stmt";
}

abbrev pub known_camt_053_namespaces : List Text
known_camt_053_namespaces = map codes (
    "urn:iso:std:iso:20022:tech:xsd:camt.053.001.08"
    ∷ "urn:iso:std:iso:20022:tech:xsd:camt.053.001.13" ∷ [])

abbrev pub camt_054 : SupportedVersion
camt_054 = record {
  identifier = codes "camt.054.001.14";
  message_name = codes "BankToCustomerDebitCreditNotificationV14";
  namespace = codes "urn:iso:std:iso:20022:tech:xsd:camt.054.001.14";
  root_element = codes "Ntfctn";
}

abbrev pub known_camt_054_namespaces : List Text
known_camt_054_namespaces = map codes (
    "urn:iso:std:iso:20022:tech:xsd:camt.054.001.08"
    ∷ "urn:iso:std:iso:20022:tech:xsd:camt.054.001.13" ∷ [])

-- The namespace and the local name of a tag, which lxml writes with a brace in front.
abbrev tag_namespace : Text → Text
tag_namespace tag = if contains b'}' tag then before_first b'}' (tail_of tag) else []

abbrev tag_local : Text → Text
tag_local tag = if contains b'}' tag then after_first b'}' (tail_of tag) else tag

unfoldable pub of_namespace : Text → List SupportedVersion → Option SupportedVersion
of_namespace namespace versions =
    find (λ (v : SupportedVersion). text_eq v.namespace namespace) versions

unfoldable pub identify_tag : List SupportedVersion → List Text → Text → Identified
identify_tag versions known tag =
    if text_eq (tag_local tag) (codes "Document")
    then elim (of_namespace (tag_namespace tag) versions) [
      | some version ↦ identified version
      | none ↦
          if any (λ n. text_eq n (tag_namespace tag)) known
          then refused unsupported_version
          else refused unsupported_namespace
    ]
    else refused not_a_document

unfoldable pub identify_root : List SupportedVersion → List Text → Option Text → Identified
identify_root versions known none = refused no_element
identify_root versions known (some tag) = identify_tag versions known tag

-- `identify_message_version`; the test for the message element has no effect.
abbrev pub identify_message_version : Node → List SupportedVersion → List Text → Identified
identify_message_version root versions known = identify_root versions known (tag_of root)

abbrev pub identify_pacs_008 : Node → Identified
identify_pacs_008 root = identify_message_version root (pacs_008 ∷ []) known_pacs_008_namespaces

abbrev pub identify_pain_001 : Node → Identified
identify_pain_001 root = identify_message_version root (pain_001 ∷ []) known_pain_001_namespaces

abbrev pub identify_pacs_002 : Node → Identified
identify_pacs_002 root = identify_message_version root (pacs_002 ∷ []) known_pacs_002_namespaces

abbrev pub identify_pacs_009 : Node → Identified
identify_pacs_009 root = identify_message_version root (pacs_009 ∷ []) known_pacs_009_namespaces

abbrev pub identify_camt_053 : Node → Identified
identify_camt_053 root = identify_message_version root (camt_053 ∷ []) known_camt_053_namespaces

abbrev pub identify_camt_054 : Node → Identified
identify_camt_054 root = identify_message_version root (camt_054 ∷ []) known_camt_054_namespaces

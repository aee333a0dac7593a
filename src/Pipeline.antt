-- ===== src/Pipeline.antt =====
-- packages/analysis/pipeline.py and models.py: the analysis of a message. Parsing is left to lxml:
-- a document is given by its root. The hashes are parameters; the identifier and the time of a
-- result, and the version of the address provider, are left out. `none` is an exception.
pub mod Analyze
pub mod Levels
pub mod Status
mod Tests
use mathlib.Core.Option
use payment_ops.Prelude.{
  Bool, true, false, not, ◌&&◌, ◌||◌, Option, none, some, is_some, List, [], ◌∷◌, ◌++◌, String,
  Text, map, all, any, or_else, truthy, ◌>>=◌, if◌then◌else◌,
}
use payment_ops.Unicode.{Unicode}
use payment_ops.Domain.Payment.{
  AddressReadiness, ready, repairable, unresolved, EvidenceLevel, CandidateStatus, PostalAddress,
  PaymentTransaction, PaymentMessage,
}
use payment_ops.Rules.{Rule, RuleFinding, evaluate, ruleset_version}
use payment_ops.Rules.Address.{addresses}
use payment_ops.Addresses.{AddressAnalysis}
use payment_ops.Repair.{DiffEntry, Analysis, RepairCandidate, generate_candidate}
use payment_ops.Repair.Document.{Documents, generate_document_candidate}
use payment_ops.Iso.{Formats}
use payment_ops.Xml.{Node}

pub record AnalysisIssue : Type 0 where
  pub code : Text
  pub severity : Text
  pub path : Option Text
  pub message : Text

pub record SchemaValidationResult : Type 0 where
  pub valid : Bool
  pub issues : List AnalysisIssue

pub record AnalysisAddress : Type 0 where
  pub party : String
  pub readiness : AddressReadiness
  pub evidence_level : EvidenceLevel
  pub country_code : Option Text
  pub town_name : Option Text
  pub provider : String
  pub note : Option Text
  pub fallback : Bool

pub record AnalysisResult : Type 0 where
  pub message_type : Option Text
  pub message_version : Option Text
  -- `original_validation_status == "valid"`
  pub is_valid : Bool
  pub schema_issues : List AnalysisIssue
  pub rule_findings : List RuleFinding
  pub address_analyses : List AnalysisAddress
  pub address_readiness : AddressReadiness
  pub repair_status : Option CandidateStatus
  pub candidate_diff : List DiffEntry
  pub candidate_validation_status : Option CandidateStatus
  pub candidate_xml : Option Text
  pub ruleset_version : String
  pub address_provider : Option String
  pub address_provider_fallback : Bool
  pub input_hash : Text
  pub output_hash : Option Text
  pub warnings : List String

-- What is collected over the addresses.
pub record Seen : Type 0 where
  pub address_analyses : List AnalysisAddress
  pub overall_readiness : List AddressReadiness
  pub any_fallback : Bool
  pub provider_used : Option String

abbrev pub nothing_seen : Seen
nothing_seen = record {
  address_analyses = [];
  overall_readiness = [];
  any_fallback = false;
  provider_used = none;
}

unfoldable pub see : String → AddressAnalysis → Seen → Seen
see label a seen = record {
  address_analyses =
      seen.address_analyses
      ++ record {
        party = label;
        readiness = a.readiness;
        evidence_level = a.evidence_level;
        country_code = a.country_code;
        town_name = a.town_name;
        provider = a.provider;
        note = a.note;
        fallback = a.fallback;
      }
        ∷ [];
  overall_readiness = seen.overall_readiness ++ a.readiness ∷ [];
  any_fallback = a.fallback || seen.any_fallback;
  provider_used = if a.available then some a.provider else seen.provider_used;
}

module _ (analyze : PostalAddress → AddressAnalysis) where
  unfoldable pub see_addresses : List (String × PostalAddress) → Seen → Seen
  see_addresses [] seen = seen
  see_addresses ((label, addr) ∷ rest) seen = see_addresses rest (see label (analyze addr) seen)

  unfoldable pub see_transactions : List PaymentTransaction → Seen → Seen
  see_transactions [] seen = seen
  see_transactions (tx ∷ txs) seen = see_transactions txs (see_addresses (addresses tx) seen)

  -- What the generator reads of an analysis.
  abbrev pub suggestions : PostalAddress → Analysis
  suggestions addr = record {
    country_code = (analyze addr).country_code;
    town_name = (analyze addr).town_name;
  }

abbrev pub is_ready : AddressReadiness → Bool
is_ready ready = true
is_ready _ = false

abbrev pub is_unresolved : AddressReadiness → Bool
is_unresolved unresolved = true
is_unresolved _ = false

abbrev pub is_review : AddressReadiness → Bool
is_review AddressReadiness.review_required = true
is_review _ = false

-- `_aggregate_readiness`
unfoldable pub aggregate_readiness : List AddressReadiness → AddressReadiness
aggregate_readiness [] = unresolved
aggregate_readiness (l ∷ ls) =
    if all is_ready (l ∷ ls)
    then ready
    else if any is_unresolved (l ∷ ls)
    then unresolved
    else if any is_review (l ∷ ls)
    then AddressReadiness.review_required
    else repairable

abbrev pub needs_review : Option RepairCandidate → Bool
needs_review none = false
needs_review (some c) = elim c.status [ CandidateStatus.review_required ↦ true | _ ↦ false ]

-- `_warnings`
unfoldable pub warnings : Bool → Option RepairCandidate → Bool → List String
warnings xsd_valid candidate any_fallback =
    (if xsd_valid then [] else "Original message did not pass XSD validation" ∷ [])
    ++ (if needs_review candidate then "Repair candidate requires human review" ∷ [] else [])
    ++ (if any_fallback then "ADDRESS_PROVIDER_FALLBACK" ∷ [] else [])

abbrev pub xml_of : Option RepairCandidate → Option Text
xml_of none = none
xml_of (some c) = c.xml

abbrev pub changes_of : Option RepairCandidate → List DiffEntry
changes_of none = []
changes_of (some c) = c.changes

abbrev pub valid_or_absent : Option SchemaValidationResult → Bool
valid_or_absent none = true
valid_or_absent (some r) = r.valid

abbrev pub issues_of : Option SchemaValidationResult → List AnalysisIssue
issues_of none = []
issues_of (some r) = r.issues

-- The hashes of a model and of a text.
pub record Hashes : Type 0 where
  pub message_hash : PaymentMessage → Text
  pub text_hash : Text → Text

pub record Request : Type 0 where
  pub document : Option Node
  pub xsd_result : Option SchemaValidationResult
  pub message_type : Option Text
  pub message_version : Option Text
  pub repair : Bool
  pub include_candidate_xml : Bool

module _ (u : Unicode) (f : Formats) (docs : Documents) (h : Hashes)
    (analyze : PostalAddress → AddressAnalysis) (rules : List Rule) where
  unfoldable pub candidate_of : Option Node → PaymentMessage → Option RepairCandidate
  candidate_of none message = generate_candidate u (suggestions analyze) rules none message
  candidate_of (some root) message =
      generate_document_candidate u f docs (suggestions analyze) rules root message

  -- The candidate, if one is asked for.
  unfoldable pub repaired : Request → PaymentMessage → Option (Option RepairCandidate)
  repaired request message =
      if request.repair
      then Option.map (λ (c : RepairCandidate). some c) (candidate_of request.document message)
      else some none

  unfoldable pub result_of : Request → PaymentMessage → Option RepairCandidate → AnalysisResult
  result_of request message candidate =
      let seen = see_transactions analyze message.transactions nothing_seen in
      let xml = or_else (xml_of candidate) none in
      record {
        message_type = or_else request.message_type message.message_type;
        message_version = request.message_version;
        is_valid = valid_or_absent request.xsd_result;
        schema_issues = issues_of request.xsd_result;
        rule_findings = evaluate rules message;
        address_analyses = seen.address_analyses;
        address_readiness = aggregate_readiness seen.overall_readiness;
        repair_status = Option.map (λ (c : RepairCandidate). c.status) candidate;
        candidate_diff = changes_of candidate;
        candidate_validation_status = Option.map (λ (c : RepairCandidate). c.status) candidate;
        candidate_xml = if request.include_candidate_xml then xml else none;
        ruleset_version = ruleset_version;
        address_provider = seen.provider_used;
        address_provider_fallback = seen.any_fallback;
        input_hash = h.message_hash message;
        output_hash = Option.map h.text_hash xml;
        warnings = warnings (valid_or_absent request.xsd_result) candidate seen.any_fallback;
      }

  unfoldable pub analyze_message : Request → PaymentMessage → Option AnalysisResult
  analyze_message request message =
      repaired request message >>= λ candidate. some (result_of request message candidate)

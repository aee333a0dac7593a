-- ===== src/Pipeline/Analyze.antt =====
-- packages/analysis/pipeline.py: the entry points for documents, `analyze` and `analyze_iso`.
use mathlib.Core.Option
use payment_ops.Prelude.{
  ℕ, ◌+◌, Bool, true, false, Option, none, some, List, [], ◌∷◌, String, Text, ltb, length, ◌>>=◌,
  if◌then◌else◌,
}
use payment_ops.Unicode.{Unicode}
use payment_ops.Domain.Payment.{
  PostalAddress, PaymentMessage, ValidationStatus, AddressReadiness, CandidateStatus,
}
use payment_ops.Domain.Account.{AccountReport, AccountReportBundle, AccountReportType}
use payment_ops.Domain.Lifecycle.{PaymentStatus, LifecycleStatusReport, TransactionStatus}
use payment_ops.Rules.{Rule, RuleFinding}
use payment_ops.Addresses.{AddressAnalysis}
use payment_ops.Lifecycle.{CorrelationProfile, profile_from_message, profile_from_status_report}
use payment_ops.Repair.{DiffEntry}
use payment_ops.Repair.Document.{Documents}
use payment_ops.Xml.{Node}
use payment_ops.Iso.{Formats}
use payment_ops.Iso.Versions.{Identified, identified, refused, identify_pacs_008}
use payment_ops.Iso.Pacs008.{map_pacs008_to_canonical}
use payment_ops.Iso.Registry.{
  Artifact, payment, status, account, RegisteredMessage, IsoMessageRegistry, resolve_root,
}
use payment_ops.Pipeline.{
  AnalysisIssue, SchemaValidationResult, AnalysisAddress, AnalysisResult, Hashes, analyze_message,
}

-- `validate_message`: the result of a schema for the version.
pub record Schemas : Type 0 where
  pub validate : Text → Node → SchemaValidationResult

-- The identifier, the time, the hash of the input, the version of the engine, and what the service
-- fills in later are left out.
pub record IsoAnalysisResult : Type 0 where
  pub message_family : Text
  pub message_definition : Text
  pub message_version : Text
  pub namespace : Text
  pub message_id : Option Text
  pub adapter_version : Text
  pub schema_validation : Bool
  pub schema_version : Text
  pub is_valid : Bool
  pub schema_issues : List AnalysisIssue
  pub rule_findings : List RuleFinding
  pub address_analyses : List AnalysisAddress
  pub address_readiness : Option AddressReadiness
  pub repair_status : Option CandidateStatus
  pub candidate_diff : List DiffEntry
  pub candidate_validation_status : Option CandidateStatus
  pub canonical_model_version : String
  pub warnings : List String
  pub raw_status : Option Text
  pub normalized_status : Option PaymentStatus
  pub correlation_profiles : List CorrelationProfile
  pub account_report_type : Option AccountReportType
  pub account_reports : List AccountReport
  pub account_entry_count : ℕ

pub data IsoError : Type 0 where
  unsupported_message payload_too_large analysis_failed : IsoError

pub data IsoOutcome : Type 0 where
  analyzed : IsoAnalysisResult → IsoOutcome
  failed : IsoError → IsoOutcome

-- `number_of_entries` of a bundle.
unfoldable pub number_of_entries : List AccountReport → ℕ
number_of_entries [] = 0
number_of_entries (r ∷ rs) = length r.entries + number_of_entries rs

abbrev pub schema_warnings : SchemaValidationResult → List String
schema_warnings x = if x.valid then [] else "Original message did not pass XSD validation" ∷ []

-- What the three kinds of results share.
unfoldable pub metadata_result :
    RegisteredMessage → Option Text → SchemaValidationResult → IsoAnalysisResult
metadata_result reg message_id x = record {
  message_family = reg.definition.message_family;
  message_definition = reg.definition.message_definition;
  message_version = reg.definition.version;
  namespace = reg.definition.namespace;
  message_id = message_id;
  adapter_version = reg.definition.adapter_version;
  schema_validation = x.valid;
  schema_version = reg.definition.version;
  is_valid = x.valid;
  schema_issues = x.issues;
  rule_findings = [];
  address_analyses = [];
  address_readiness = none;
  repair_status = none;
  candidate_diff = [];
  candidate_validation_status = none;
  canonical_model_version = "payment_domain.v2";
  warnings = schema_warnings x;
  raw_status = none;
  normalized_status = none;
  correlation_profiles = [];
  account_report_type = none;
  account_reports = [];
  account_entry_count = 0;
}

-- `_iso_account_result`
unfoldable pub iso_account_result :
    RegisteredMessage → AccountReportBundle → SchemaValidationResult → ℕ → IsoOutcome
iso_account_result reg bundle x max_entries =
    if ltb max_entries (number_of_entries bundle.reports)
    then failed payload_too_large
    else analyzed (record (metadata_result reg bundle.message_id x) {
      canonical_model_version = "payment_domain.v3";
      account_report_type = some bundle.report_type;
      account_reports = bundle.reports;
      account_entry_count = number_of_entries bundle.reports;
    })

-- The status that stands for a report: that of its first transaction, or of the group.
unfoldable pub leading_status :
    LifecycleStatusReport → List TransactionStatus → Option Text × PaymentStatus
leading_status report [] = (report.group_status_raw, report.group_status)
leading_status report (tx ∷ txs) = (tx.raw_iso_status, tx.normalized_status)

-- `_iso_status_result`
unfoldable pub iso_status_result :
    RegisteredMessage → LifecycleStatusReport → SchemaValidationResult → IsoAnalysisResult
iso_status_result reg report x = record (metadata_result reg report.message_id x) {
  raw_status = (leading_status report report.transaction_statuses).0;
  normalized_status = some (leading_status report report.transaction_statuses).1;
  correlation_profiles = profile_from_status_report report;
}

abbrev pub validation_status : Bool → ValidationStatus
validation_status true = ValidationStatus.valid
validation_status false = ValidationStatus.invalid

-- The result of the message engine under the metadata of the message.
unfoldable pub payment_result :
    RegisteredMessage → PaymentMessage → SchemaValidationResult → AnalysisResult → IsoAnalysisResult
payment_result reg message x r = record (metadata_result reg message.message_id x) {
  is_valid = r.is_valid;
  schema_issues = r.schema_issues;
  rule_findings = r.rule_findings;
  address_analyses = r.address_analyses;
  address_readiness = some r.address_readiness;
  repair_status = r.repair_status;
  candidate_diff = r.candidate_diff;
  candidate_validation_status = r.candidate_validation_status;
  warnings = r.warnings;
  correlation_profiles = profile_from_message message;
}

abbrev or_failed : Option IsoAnalysisResult → IsoOutcome
or_failed none = failed analysis_failed
or_failed (some r) = analyzed r

module _ (u : Unicode) (f : Formats) (docs : Documents) (h : Hashes) (schemas : Schemas)
    (provider : PostalAddress → AddressAnalysis) (rules : List Rule) where
  unfoldable pub analyze_identified : Node → Bool → Bool → Identified → Option AnalysisResult
  analyze_identified root repair include_xml (refused error) = none
  analyze_identified root repair include_xml (identified version) =
      let x = schemas.validate version.identifier root in
      map_pacs008_to_canonical f root version >>= λ message.
      analyze_message u f docs h provider rules
        (record {
          document = some root;
          xsd_result = some x;
          message_type = some version.identifier;
          message_version = some version.identifier;
          repair = repair;
          include_candidate_xml = include_xml;
        })
        (record message { validation_status = validation_status x.valid })

  -- `analyze`, from the root of the parsed document.
  unfoldable pub analyze : Node → Bool → Bool → Option AnalysisResult
  analyze root repair include_xml =
      analyze_identified root repair include_xml (identify_pacs_008 root)

  -- `_iso_payment_result`
  unfoldable pub iso_payment_result :
      RegisteredMessage → Node → PaymentMessage → SchemaValidationResult → ℕ → IsoOutcome
  iso_payment_result reg root message x max_transactions =
      let checked = record message { validation_status = validation_status x.valid } in
      if ltb max_transactions (length message.transactions)
      then failed payload_too_large
      else or_failed (
          Option.map (payment_result reg checked x) (
            analyze_message u f docs h provider rules
              (record {
                document = some root;
                xsd_result = some x;
                message_type = some reg.definition.version;
                message_version = some reg.definition.version;
                repair = true;
                include_candidate_xml = false;
              })
              checked))

  unfoldable pub iso_result :
      RegisteredMessage → Node → SchemaValidationResult → ℕ → Option Artifact → IsoOutcome
  iso_result reg root x limit none = failed analysis_failed
  iso_result reg root x limit (some (status report)) = analyzed (iso_status_result reg report x)
  iso_result reg root x limit (some (payment message)) = iso_payment_result reg root message x limit
  iso_result reg root x limit (some (account bundle)) = iso_account_result reg bundle x limit

  unfoldable pub analyze_registered : Node → ℕ → Option RegisteredMessage → IsoOutcome
  analyze_registered root limit none = failed unsupported_message
  analyze_registered root limit (some reg) =
      iso_result reg root (schemas.validate reg.definition.version root) limit
        (reg.adapter root reg.version_obj)

  -- `analyze_iso`
  unfoldable pub analyze_iso : Node → IsoMessageRegistry → ℕ → IsoOutcome
  analyze_iso root registry limit = analyze_registered root limit (resolve_root root registry)

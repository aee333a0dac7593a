-- ===== src/Pipeline/Tests.antt =====
-- The theorems on the pipeline, on a small document.
use mathlib.Core.Option
use payment_ops.Prelude.{
  ◌≡◌, refl, true, false, none, some, [], ◌∷◌, Text, codes, map, Bool, false, ◌⊎◌, all,
}
use payment_ops.Unicode.Ascii.{ascii}
use payment_ops.Domain.Payment.{PostalAddress, AddressReadiness, EvidenceLevel}
use payment_ops.Addresses.{AddressAnalysis}
use payment_ops.Rules.Default.{address_ruleset}
use payment_ops.Xml.{before_first, extract_namespace}
use payment_ops.Xml.Samples.{document, report}
use payment_ops.Repair.Document.{Documents}
use payment_ops.Iso.Pacs002.{normalize_status, reported}
use payment_ops.Iso.Samples.{formats, message}
use payment_ops.Iso.Versions.{pacs_002}
use payment_ops.Iso.Registry.{build_default_registry}
use payment_ops.Pipeline.{AnalysisAddress, Hashes, Request, result_of}
use payment_ops.Pipeline.Analyze.{
  Schemas, IsoAnalysisResult, analyzed, failed, analysis_failed, analyze_iso,
}
use payment_ops.Pipeline.Levels.{IsWorst, result_of-IsWorst}
use payment_ops.Pipeline.Status.{refers_well, analyze_iso-normalize_status}

-- A provider that knows the country.
abbrev germany : PostalAddress → AddressAnalysis
germany addr = record {
  provider = "test";
  country_code = some (codes "DE");
  country_name = none;
  town_name = some (codes "Berlin");
  normalized_fields = [];
  readiness = AddressReadiness.repairable;
  evidence_level = EvidenceLevel.medium;
  available = true;
  note = none;
  fallback = false;
  evidence = [];
}

abbrev documents : Documents
documents = record { serialize = λ n. []; is_valid = λ version n. true }

abbrev hashes : Hashes
hashes = record { message_hash = λ m. []; text_hash = λ s. s }

abbrev schemas : Schemas
schemas = record { validate = λ version n. record { valid = true; issues = [] } }

abbrev request : Request
request = record {
  document = some document;
  xsd_result = none;
  message_type = none;
  message_version = none;
  repair = true;
  include_candidate_xml = false;
}

result_of-IsWorst_example :
    IsWorst
      (result_of ascii formats documents hashes germany address_ruleset request message
        none).address_readiness
      (map
        (λ (a : AnalysisAddress). a.readiness)
        (result_of ascii formats documents hashes germany address_ruleset request message
          none).address_analyses)
result_of-IsWorst_example =
    result_of-IsWorst ascii formats documents hashes germany address_ruleset request message none

is_report : extract_namespace report ≡ some (codes "urn:iso:std:iso:20022:tech:xsd:pacs.002.001.16")
unfolding extract_namespace before_first
is_report = refl

analyze_iso-normalize_status_example :
    ((all refers_well (reported report pacs_002) ≡ true)
      × (r : IsoAnalysisResult) × (analyze_iso ascii formats documents hashes schemas germany
            address_ruleset report
            (build_default_registry formats)
            100
          ≡ analyzed r)
      × (r.normalized_status ≡ some (normalize_status r.raw_status)))
    ⊎ ((all refers_well (reported report pacs_002) ≡ false)
        × (analyze_iso ascii formats documents hashes schemas germany address_ruleset report
              (build_default_registry formats)
              100
            ≡ failed analysis_failed))
analyze_iso-normalize_status_example =
    analyze_iso-normalize_status ascii formats documents hashes schemas germany address_ruleset
      report 100 is_report

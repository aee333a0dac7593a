-- ===== src/Iso/Registry.antt =====
-- packages/iso_engine/registry.py: the supported messages by their identifiers and namespaces.
pub mod Default
use mathlib.Core.Option
use payment_ops.Prelude.{
  Bool, true, false, Option, none, some, List, [], ◌∷◌, Text, codes, text_eq, ◌>>=◌, truthy,
  is_some, map, if◌then◌else◌, find,
}
use payment_ops.Domain.Payment.{PaymentMessage}
use payment_ops.Domain.Lifecycle.{LifecycleStatusReport}
use payment_ops.Domain.Account.{AccountReportBundle}
use payment_ops.Xml.{Node, extract_namespace}
use payment_ops.Iso.{Formats, SupportedVersion}
use payment_ops.Iso.Pacs008.{map_pacs008_to_canonical}
use payment_ops.Iso.Pain001.{map_pain001_to_canonical}
use payment_ops.Iso.Pacs009.{map_pacs009_to_canonical}
use payment_ops.Iso.Pacs002.{map_pacs002_to_status}
use payment_ops.Iso.Camt.{map_camt053_to_account_report, map_camt054_to_account_report}
use payment_ops.Iso.Versions.{pacs_008, pain_001, pacs_002, pacs_009, camt_053, camt_054}

-- What an adapter makes of a document.
pub data Artifact : Type 0 where
  payment : PaymentMessage → Artifact
  status : LifecycleStatusReport → Artifact
  account : AccountReportBundle → Artifact

pub record MessageDefinition : Type 0 where
  pub message_family : Text
  pub message_definition : Text
  pub version : Text
  pub namespace : Text
  pub adapter_version : Text
  pub root_element : Text

pub record RegisteredMessage : Type 0 where
  pub definition : MessageDefinition
  -- `none` is an exception of the adapter.
  pub adapter : Node → SupportedVersion → Option Artifact
  pub version_obj : SupportedVersion

-- A dictionary, in the order of its keys.
abbrev pub Table : Type 0
Table = List (Text × RegisteredMessage)

-- `table[key] = message`
unfoldable pub put : Text → RegisteredMessage → Table → Table
put key message [] = (key, message) ∷ []
put key message ((k, m) ∷ rest) =
    let later = put key message rest in
    if text_eq k key then (k, message) ∷ rest else (k, m) ∷ later

unfoldable pub get : Text → Table → Option RegisteredMessage
get key [] = none
get key ((k, m) ∷ rest) = if text_eq k key then some m else get key rest

pub record IsoMessageRegistry : Type 0 where
  pub by_identifier : Table
  pub by_namespace : Table

abbrev pub empty_registry : IsoMessageRegistry
empty_registry = record { by_identifier = []; by_namespace = [] }

unfoldable pub register : RegisteredMessage → IsoMessageRegistry → IsoMessageRegistry
register message r = record {
  by_identifier = put message.definition.version message r.by_identifier;
  by_namespace = put message.definition.namespace message r.by_namespace;
}

-- `none` is an `UnsupportedMessageError`.
abbrev pub resolve : Text → IsoMessageRegistry → Option RegisteredMessage
resolve identifier r = get identifier r.by_identifier

abbrev pub resolve_namespace : Text → IsoMessageRegistry → Option RegisteredMessage
resolve_namespace namespace r = get namespace r.by_namespace

unfoldable pub resolve_root : Node → IsoMessageRegistry → Option RegisteredMessage
resolve_root root r =
    let namespace = extract_namespace root in
    if truthy namespace then (namespace >>= λ n. resolve_namespace n r) else none

-- `supported`
abbrev pub supported : IsoMessageRegistry → List MessageDefinition
supported r = map (λ (p : Text × RegisteredMessage). p.1.definition) r.by_identifier

-- `identifier in registry`
abbrev pub is_supported : Text → IsoMessageRegistry → Bool
is_supported identifier r = is_some (get identifier r.by_identifier)

-- A message of a family, with the adapter that takes its version.
unfoldable pub registered :
    Text → SupportedVersion → (Node → SupportedVersion → Option Artifact) → RegisteredMessage
registered family version adapter = record {
  definition = record {
    message_family = family;
    message_definition = version.message_name;
    version = version.identifier;
    namespace = version.namespace;
    adapter_version = codes "0.1.0";
    root_element = version.root_element;
  };
  adapter = adapter;
  version_obj = version;
}

abbrev pub default_messages : Formats → List RegisteredMessage
default_messages f =
    registered (codes "pacs") pacs_008
      (λ root v. Option.map payment (map_pacs008_to_canonical f root v))
    ∷ registered (codes "pain") pain_001
        (λ root v. Option.map payment (map_pain001_to_canonical f root v))
    ∷ registered (codes "pacs") pacs_002
        (λ root v. Option.map status (map_pacs002_to_status f root v))
    ∷ registered (codes "pacs") pacs_009
        (λ root v. Option.map payment (map_pacs009_to_canonical f root v))
    ∷ registered (codes "camt") camt_053
        (λ root v. Option.map account (map_camt053_to_account_report f root v))
    ∷ registered (codes "camt") camt_054
        (λ root v. Option.map account (map_camt054_to_account_report f root v))
    ∷ []

unfoldable pub register_all : List RegisteredMessage → IsoMessageRegistry → IsoMessageRegistry
register_all [] r = r
register_all (m ∷ ms) r = register_all ms (register m r)

unfoldable pub build_default_registry : Formats → IsoMessageRegistry
build_default_registry f = register_all (default_messages f) empty_registry

-- ===== src/Lib.antt =====
-- Payment_ops: the decisions that the payment operations platform takes about payments, and the
-- accounts of the people who take them.
--
-- The program receives payment messages, checks them with rules, proposes repairs of addresses,
-- correlates status reports, reconciles account entries, matches records of two sources, and lets
-- operators decide on cases. The parts, and the files that model them:
--
-- * Domain models packages/payment_domain: models.py (Domain/Payment, Domain/Account,
--   Domain/Lifecycle) and countries.py (Domain/Countries). Enumerations are data types, models are
--   records, `None` is `none`. The one constraint that the models check, the length of a currency, is
--   checked by `new_amount`.
-- * Account models packages/iso_engine/account: identity.py (Account/Identity) and
--   reconciliation.py (Account/Reconcile): `reconcile_account_entry`, `_compare`, `_same_account`,
--   `_expected_direction`, `_score` and `_classify`. The score is a number of hundredths.
--   Account/Ingest models apps/api/paymentops_api/services/account_service.py: its tables, and in
--   Account/Ingest/Entries `ingest_account_report` with the functions that it calls, and
--   `detect_missing_account_events`.
-- * Lifecycle models packages/iso_engine/lifecycle/correlation.py: the profiles and
--   `correlate_profiles`.
-- * Matching models packages/matching_engine: normalization.py (Matching/Normalize,
--   Matching/Names), models.py (Matching/Records), matcher.py (Matching/Evaluate): `evaluate_pair`
--   and the functions that it calls, policy.py (Matching/Policy) and candidates.py
--   (Matching/Criteria). Of apps/api/paymentops_api/services/matching_service.py it models the run,
--   `execute_reconciliation` (Matching/Run, and `_filter_candidates` in Matching/Criteria), and the
--   published versions of a policy (Matching/Published).
-- * Rules models packages/rules_engine: base.py (Rules), rules/structural_rules.py
--   (Rules/Structural), rules/address_rules.py (Rules/Address), rules/__init__.py (Rules/Default)
--   and declarative.py (Rules/Declarative).
-- * Addresses models packages/address_engine: normalization.py, readiness.py and
--   providers/cloudnova.py (`analyze`), and providers/fallback.py (`analyze_with_fallback`);
--   Addresses/Remote models providers/swift_derived.py, the client of the remote service with its
--   circuit breaker.
-- * Xml holds the trees of elements that lxml gives, with the accessors of
--   packages/iso_engine/common.py, and in Xml/Places the places of elements in a tree.
-- * Iso models packages/iso_engine: common.py (Iso), parties.py (Iso/Parties), the adapters of
--   pacs008, pain001, pacs009 and pacs002 (a file each), account/entries.py (Iso/Entries) with the
--   adapters of camt053 and camt054 (Iso/Camt), the version tables and identifiers (Iso/Versions)
--   and registry.py (Iso/Registry). Iso/Paths puts the adapter of pacs.008 before the reconstruction
--   of its document.
-- * Repair models packages/repair_engine: generator.py and models.py (Repair, and Repair/Document for
--   a message that came as a document) and xml_reconstruction.py (Repair/Rebuild). It evaluates the
--   rules on the changed message; Repair/Mapped is about the paths that the mapper gives. A change in
--   place of the source is an update of the tree at the place of the element.
-- * Pipeline models packages/analysis: `analyze_message` with the results (Pipeline), and
--   `analyze` and `analyze_iso` from the root of a document (Pipeline/Analyze).
-- * Mapping models packages/mapping_engine: models.py (Mapping), selectors.py (Mapping/Selectors),
--   transforms.py (Mapping/Transforms), validator.py (Mapping/Validator) and mapper.py
--   (Mapping/Fresh for the empty models, Mapping/Targets for `_set_target` and what it calls,
--   Mapping/Mapper for `map_to_canonical`).
--   Mapping/Unrepaired puts the mapper in front of the repair generator.
-- * Batch models `process_batch_async` of apps/api/paymentops_api/services/batch_service.py.
-- * Profiles models apps/api/paymentops_api/services/integration_service.py: integration profiles
--   with their mappings and rules, and the versions that are kept of them.
-- * Users models apps/api/paymentops_api/services/user_service.py and the tables of
--   apps/api/paymentops_api/db/models/auth.py; Cases models services/case_service.py beside it. A
--   function that commits takes the tables and returns them; one that raises returns the error.
-- * Passwords models apps/api/paymentops_api/passwords.py; Passwords/Hex holds the hexadecimal
--   form of bytes.
-- * Unicode and Prelude hold the methods of `str` that the program calls, and shared helpers. A
--   `str` is the list of its code points.
--
-- Parameters stand for libraries that are not in the repository: the Unicode tables of Python
-- (record `Unicode`), floats, decimals, dates and the string similarities of rapidfuzz (record
-- `Numbers`), hashlib (`Digests` in Passwords, `Hashing` in Account/Ingest), and what the mapper
-- takes from lxml, `decimal` and `datetime` (record `Library`). So do, at their edges, the parts
-- that rest on such libraries: the hashes of passwords.py in Users (record `Passwords`), the
-- serialisation and the schemas of documents (`Documents` in Repair/Document, `Schemas` in
-- Pipeline/Analyze), the numbers and dates that the adapters read (`Formats` in Iso), whether
-- the candidates of a source of a matching run are compared without an exception and whether the
-- database takes its row, the remote address service, and in Batch the reader of the file, what is
-- read of the columns of a stored profile, and the analysis of a row. The address provider of the generator is
-- an argument, as in the source. The theorems on tokens assume no property of the hash; a fact taken
-- about floats, digests or the Unicode tables is a hypothesis of the theorem that takes it. There is
-- no fuel: every loop of the modelled code runs over a list, a text or a number of attempts.
--
-- Numbers are natural numbers or integers without a bound, as in Python; a time is a number of
-- microseconds and a day the number of the day. Rows of a table are lists, and look-ups take the
-- first row that fits; the unique columns of the database make it the only one, but for the entries
-- of an identity and the lifecycles of an entry, of which the query gives any.
--
-- Not modelled: the parsing of XML and its security limits, the schemas, masking, the HTTP routers,
-- settings and database declarations, the worker, the web client and the migrations, which are
-- input, output and glue; third_party/swift-address, another project's code; and what this library
-- has not reached: the storage of analyses and lifecycles (iso_analysis_service.py,
-- lifecycle_service.py), the evaluation of customer rules, the conversion of rows to matching
-- records with the decisions on candidates, and the listings.
pub mod Prelude
pub mod Unicode
pub mod Domain
pub mod Matching
pub mod Account
pub mod Addresses
pub mod Lifecycle
pub mod Passwords
pub mod Users
pub mod Cases
pub mod Rules
pub mod Repair
pub mod Mapping
pub mod Batch
pub mod Profiles
pub mod Xml
pub mod Iso
pub mod Pipeline

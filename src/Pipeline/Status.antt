-- ===== src/Pipeline/Status.antt =====
-- packages/analysis/pipeline.py together with packages/iso_engine: the status of a status report.
use mathlib.Core.Option
use payment_ops.Prelude.{
  ◌≡◌, refl, ap, sym, ◌∙◌, ◌⊎◌, inl, inr, codes, Bool, true, false, Option, none, some, List, [],
  ◌∷◌, ℕ, ◌==◌, ◌>>=◌, ◌&&◌, length, all, Bool-cases, Option-cases, All,
}
use payment_ops.Unicode.{Unicode}
use payment_ops.Domain.Payment.{PostalAddress, MonetaryAmount, new_amount}
use payment_ops.Domain.Lifecycle.{TransactionStatus, RelatedPaymentReference}
use payment_ops.Rules.{Rule}
use payment_ops.Addresses.{AddressAnalysis}
use payment_ops.Repair.Document.{Documents}
use payment_ops.Xml.{Node, extract_namespace, child, text}
use payment_ops.Iso.{Formats}
use payment_ops.Iso.Parties.{currency_of, map_amount}
use payment_ops.Iso.Versions.{pacs_002}
use payment_ops.Iso.Pacs002.{
  normalize_status, instructed, reference_of, transaction_status, transaction_statuses, report_of,
  reported, map_pacs002_to_status,
}
use payment_ops.Iso.Registry.{
  RegisteredMessage, status, build_default_registry, resolve_root, register_all, register, put,
  registered, get,
}
use payment_ops.Pipeline.{Hashes}
use payment_ops.Pipeline.Analyze.{
  Schemas, IsoAnalysisResult, analyzed, failed, analysis_failed, leading_status, iso_status_result,
  iso_result, analyze_registered, analyze_iso,
}

-- The currency of an amount has three characters, if there is an amount.
abbrev pub has_currency : Option Node → Bool
has_currency none = true
has_currency (some n) = elim (text (some n)) [
  | none ↦ true
  | some value ↦ length (currency_of n) == 3
]

-- The original transaction of a status has such an amount.
abbrev pub refers_well : Node → Bool
refers_well tx = has_currency (instructed (child (some tx) (codes "OrgnlTxRef")))

-- A result that is there exactly if a test holds, with a property of what it is then.
abbrev Follows : {A : Type 0} → Bool → (A → Type 0) → Option A → Type 0
Follows {A} ok P o = ((ok ≡ true) × (a : A) × (o ≡ some a) × P a) ⊎ ((ok ≡ false) × (o ≡ none))

map_amount-Follows :
    (f : Formats) (el : Option Node) → Follows (has_currency el) (λ a. Unit) (map_amount f el)
unfolding map_amount new_amount
map_amount-Follows f none = inl (refl, none, refl, tt)
map_amount-Follows f (some n) = elim (Option-cases (text (some n))) [
  | inl e ↦ rw (has_currency, map_amount, e) (inl (refl, none, refl, tt))
  | inr (value, e) ↦ elim (Bool-cases (length (currency_of n) == 3)) [
    | inl three ↦ rw (has_currency, map_amount, new_amount, e, three) (inl (refl, _, refl, tt))
    | inr other ↦ rw (has_currency, map_amount, new_amount, e, other) (inr (refl, refl))
  ]
]

reference_of-some :
    (f : Formats) (orgnl : Option Node) (amount : Option MonetaryAmount)
    → map_amount f (instructed orgnl) ≡ some amount
    → (r : Option RelatedPaymentReference) × (reference_of f orgnl ≡ some r)
unfolding reference_of
reference_of-some f none amount e = (none, refl)
reference_of-some f (some n) amount e = rw e (_, refl)

-- The normalised status is that of the raw one.
abbrev IsNormal : TransactionStatus → Type 0
IsNormal s = s.normalized_status ≡ normalize_status s.raw_iso_status

transaction_status-Follows :
    (f : Formats) (tx : Node) → Follows (refers_well tx) IsNormal (transaction_status f tx)
unfolding transaction_status
transaction_status-Follows f tx =
    elim (map_amount-Follows f (instructed (child (some tx) (codes "OrgnlTxRef")))) [
      | inr (ill, e) ↦ rw e (inr (ill, refl))
      | inl (well, amount, e, _) ↦
          let (r, e2) = reference_of-some f (child (some tx) (codes "OrgnlTxRef")) amount e in
          rw (e, e2) (inl (well, _, refl, refl))
    ]

transaction_statuses-Follows :
    (f : Formats) (txs : List Node)
    → Follows (all refers_well txs) (λ ss. All IsNormal ss) (transaction_statuses f txs)
unfolding transaction_statuses
transaction_statuses-Follows f [] = inl (refl, [], refl, tt)
transaction_statuses-Follows f (tx ∷ txs) = elim (transaction_status-Follows f tx) [
  | inr (ill, e) ↦ rw (ill, e) (inr (refl, refl))
  | inl (well, s, e, normal) ↦ elim (transaction_statuses-Follows f txs) [
    | inr (ill, e2) ↦ rw (well, ill, e, e2) (inr (refl, refl))
    | inl (wells, ss, e2, normals) ↦
        rw (well, wells, e, e2) (inl (refl, s ∷ ss, refl, (normal, normals)))
  ]
]

leading_status-normalize_status :
    (f : Formats) (root : Node) (ss : List TransactionStatus)
    → All IsNormal ss
    → (leading_status (report_of f root pacs_002 ss) ss).1
      ≡ normalize_status (leading_status (report_of f root pacs_002 ss) ss).0
unfolding leading_status report_of
leading_status-normalize_status f root [] h = refl
leading_status-normalize_status f root (s ∷ ss) h = h.0

-- The message that the registry has for the namespace.
abbrev registered_status : Formats → RegisteredMessage
registered_status f =
    registered (codes "pacs") pacs_002
      (λ root v. Option.map status (map_pacs002_to_status f root v))

resolve_root-status :
    (f : Formats) (root : Node)
    → extract_namespace root ≡ some pacs_002.namespace
    → resolve_root root (build_default_registry f) ≡ some (registered_status f)
unfolding resolve_root
resolve_root-status f root e = rw e (
    unfold build_default_registry in
    unfold register_all in
    unfold register in
    unfold put in unfold registered in unfold get in unfold payment_ops.Prelude.text_eq in refl)

module _ (u : Unicode) (f : Formats) (docs : Documents) (h : Hashes) (schemas : Schemas)
    (provider : PostalAddress → AddressAnalysis) (rules : List Rule) where
  -- A document in the namespace of pacs.002 is analysed exactly if the currency of every amount that
  -- it refers to has three characters; the normalised status of the result is then that of its raw
  -- status. Otherwise the adapter raises an error that is not caught, whatever else it holds.
  pub analyze_iso-normalize_status :
      (root : Node) (limit : ℕ)
      → extract_namespace root ≡ some pacs_002.namespace
      → ((all refers_well (reported root pacs_002) ≡ true)
          × (r : IsoAnalysisResult) × (analyze_iso u f docs h schemas provider rules root
                (build_default_registry f)
                limit
              ≡ analyzed r)
          × (r.normalized_status ≡ some (normalize_status r.raw_status)))
        ⊎ ((all refers_well (reported root pacs_002) ≡ false)
            × (analyze_iso u f docs h schemas provider rules root (build_default_registry f) limit
                ≡ failed analysis_failed))
  unfolding analyze_iso analyze_registered iso_result iso_status_result registered
      map_pacs002_to_status report_of
  analyze_iso-normalize_status root limit e =
      elim (transaction_statuses-Follows f (reported root pacs_002)) [
        | inr (ill, none_read) ↦ rw (resolve_root-status f root e, none_read) (inr (ill, refl))
        | inl (well, ss, read, normal) ↦
            rw (resolve_root-status f root e, read)
              (inl (
                well,
                _,
                refl,
                ap (λ s. some s) (leading_status-normalize_status f root ss normal),
              ))
      ]

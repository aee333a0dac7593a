-- ===== src/Iso/Registry/Default.antt =====
-- packages/iso_engine/registry.py: the default registry, beside the tables of supported versions.
use mathlib.Core.Option
use payment_ops.Prelude.{
  ◌≡◌, refl, ap, ◌∙◌, Bool, true, false, Option, none, some, List, [], ◌∷◌, Text, text_eq, ◌>>=◌,
  truthy, map, if◌then◌else◌, find, arith, text_eq_comm, Bool-cases, inl, inr,
}
use payment_ops.Xml.{Node, extract_namespace}
use payment_ops.Iso.{Formats, SupportedVersion}
use payment_ops.Iso.Versions.{
  pacs_008, pain_001, pacs_002, pacs_009, camt_053, camt_054, of_namespace,
}
use payment_ops.Iso.Registry.{
  RegisteredMessage, Table, put, get, register, registered, register_all, default_messages,
  build_default_registry, resolve_root, resolve_namespace,
}

abbrev pub supported_versions : List SupportedVersion
supported_versions = pacs_008 ∷ pain_001 ∷ pacs_002 ∷ pacs_009 ∷ camt_053 ∷ camt_054 ∷ []

abbrev pub version_of : Option RegisteredMessage → Option SupportedVersion
version_of o = Option.map (λ (m : RegisteredMessage). m.version_obj) o

abbrev table_of : List RegisteredMessage → Table
table_of ms = map (λ (m : RegisteredMessage). (m.version_obj.namespace, m)) ms

build_default_registry-table_of :
    (f : Formats) → (build_default_registry f).by_namespace ≡ table_of (default_messages f)
unfolding build_default_registry register_all register put registered payment_ops.Prelude.text_eq
build_default_registry-table_of f = refl

get-table_of :
    (namespace : Text) (ms : List RegisteredMessage)
    → version_of (get namespace (table_of ms))
      ≡ of_namespace namespace (map (λ (m : RegisteredMessage). m.version_obj) ms)
unfolding get of_namespace find
get-table_of namespace [] = refl
get-table_of namespace (m ∷ ms) = ground (arith, get-table_of namespace ms)

resolve-of_namespace :
    (f : Formats) (o : Option Text)
    → version_of
        (if truthy o then (o >>= λ n. resolve_namespace n (build_default_registry f)) else none)
      ≡ (o >>= λ n. of_namespace n supported_versions)
resolve-of_namespace f none = refl
resolve-of_namespace f (some []) =
    unfold of_namespace in unfold find in unfold payment_ops.Prelude.text_eq in refl
resolve-of_namespace f (some (c ∷ n)) =
    rw (build_default_registry-table_of f)
      (get-table_of (c ∷ n) (default_messages f) ∙ (unfold registered in refl))

-- A document is dispatched to the version whose namespace is that of its root, and to none if there
-- is no such version among the six that are supported.
pub resolve_root-of_namespace :
    (f : Formats) (root : Node)
    → version_of (resolve_root root (build_default_registry f))
      ≡ (extract_namespace root >>= λ namespace. of_namespace namespace supported_versions)
unfolding resolve_root
resolve_root-of_namespace f root = resolve-of_namespace f (extract_namespace root)

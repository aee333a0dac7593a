-- ===== src/Iso/Tests.antt =====
-- The theorems on the adapters and the registry, on a small document.
use payment_ops.Prelude.{◌≡◌, none, some, [], ◌∷◌, Text, codes, ◌>>=◌}
use payment_ops.Domain.Payment.{PostalAddress}
use payment_ops.Xml.{extract_namespace}
use payment_ops.Xml.Samples.{document}
use payment_ops.Repair.{Analysis}
use payment_ops.Iso.Samples.{formats}
use payment_ops.Iso.Versions.{of_namespace}
use payment_ops.Iso.Registry.{resolve_root, build_default_registry}
use payment_ops.Iso.Registry.Default.{version_of, supported_versions, resolve_root-of_namespace}

-- A provider that knows the country.
abbrev germany : PostalAddress → Analysis
germany addr = record { country_code = some (codes "DE"); town_name = some (codes "Berlin") }

resolve_root-of_namespace_example :
    version_of (resolve_root document (build_default_registry formats))
    ≡ (extract_namespace document >>= λ namespace. of_namespace namespace supported_versions)
resolve_root-of_namespace_example = resolve_root-of_namespace formats document

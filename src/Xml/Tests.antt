-- ===== src/Xml/Tests.antt =====
-- Runs on small documents.
use payment_ops.Prelude.{◌≡◌, refl, none, some, [], ◌∷◌, Text, codes}
use payment_ops.Xml.{
  Node, element, local_name, after_last, extract_namespace, before_first, child_text, text, named,
}
use payment_ops.Unicode.{strip, lstrip, is_space}

abbrev document : Node
document = element (codes "{urn:x}A") none (element (codes "{urn:x}B") (some (codes " b ")) [] ∷ [])

local : local_name document ≡ codes "A"
unfolding local_name after_last
local = refl

space : extract_namespace document ≡ some (codes "urn:x")
unfolding extract_namespace before_first
space = refl

inner : child_text (some document) (codes "B") ≡ some (codes "b")
unfolding text named local_name after_last strip lstrip is_space payment_ops.Prelude.text_eq
inner = refl

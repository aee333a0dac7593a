-- ===== src/Xml.antt =====
-- XML documents as lxml gives them to the program, and packages/iso_engine/common.py: the names of
-- elements, the children of a name, and texts without white space around them.
mod Tests
pub mod Samples
pub mod Places
use payment_ops.Prelude.{
  ℕ, Bool, true, false, Option, none, some, List, [], ◌∷◌, Text, text_eq, ◌==◌, any, or_none,
  if◌then◌else◌,
}
use payment_ops.Unicode.{strip}

-- The tag of an element is `{namespace}name` or `name`; a comment and a processing instruction have
-- a tag that is not a text.
mutual
  pub data Node : Type 0 where
    node : Option Text → List (Text × Text) → Option Text → Nodes → Node

  pub data Nodes : Type 0 where
    end : Nodes
    more : Node → Nodes → Nodes

abbrev to_list : Nodes → List Node
to_list end = []
to_list (more n ns) = n ∷ to_list ns

abbrev of_list : List Node → Nodes
of_list [] = end
of_list (n ∷ ns) = more n (of_list ns)

-- `el.tag`, `el.get(key)`, `el.text`, `list(el)`
abbrev pub tag_of : Node → Option Text
tag_of (node tag attributes text kids) = tag

abbrev pub attributes_of : Node → List (Text × Text)
attributes_of (node tag attributes text kids) = attributes

abbrev pub text_of : Node → Option Text
text_of (node tag attributes text kids) = text

abbrev pub kids : Node → List Node
kids (node tag attributes text ns) = to_list ns

-- `el.text = value`
abbrev pub with_text : Option Text → Node → Node
with_text value (node tag attributes text ns) = node tag attributes value ns

-- `el[:] = children`
abbrev pub with_kids : List Node → Node → Node
with_kids children (node tag attributes text ns) = node tag attributes text (of_list children)

abbrev pub element : Text → Option Text → List Node → Node
element name text children = node (some name) [] text (of_list children)

abbrev pub contains : ℕ → Text → Bool
contains c s = any (λ d. d == c) s

-- `s.rsplit(c, 1)[1] if c in s else s`
unfoldable pub after_last : ℕ → Text → Text
after_last c [] = []
after_last c (d ∷ s) =
    let rest = after_last c s in if contains c s then rest else if d == c then s else d ∷ s

-- `s.split(c, 1)[0]`
unfoldable pub before_first : ℕ → Text → Text
before_first c [] = []
before_first c (d ∷ s) = let rest = before_first c s in if d == c then [] else d ∷ rest

-- `s.split(c, 1)[1]`, or nothing without a separator.
unfoldable pub after_first : ℕ → Text → Text
after_first c [] = []
after_first c (d ∷ s) = let rest = after_first c s in if d == c then s else rest

abbrev pub tail_of : Text → Text
tail_of [] = []
tail_of (c ∷ s) = s

-- `extract_localname`
unfoldable pub local_name : Node → Text
local_name n = elim (tag_of n) [ none ↦ [] | some tag ↦ after_last b'}' tag ]

-- `extract_namespace`
unfoldable pub extract_namespace : Node → Option Text
extract_namespace n = elim (tag_of n) [
  | none ↦ none
  | some tag ↦ if contains b'}' tag then some (before_first b'}' (tail_of tag)) else none
]

abbrev pub is_named : Text → Node → Bool
is_named name n = text_eq (local_name n) name

-- The children of a name, in their order.
unfoldable pub named : Text → List Node → List Node
named name [] = []
named name (n ∷ ns) = let rest = named name ns in if is_named name n then n ∷ rest else rest

abbrev pub first : List Node → Option Node
first [] = none
first (n ∷ ns) = some n

abbrev pub children : Option Node → Text → List Node
children none name = []
children (some n) name = named name (kids n)

abbrev pub child : Option Node → Text → Option Node
child el name = first (children el name)

unfoldable pub text : Option Node → Option Text
text none = none
text (some n) = elim (text_of n) [ none ↦ none | some s ↦ or_none (strip s) ]

abbrev pub child_text : Option Node → Text → Option Text
child_text el name = text (child el name)

-- Several texts, without those that are missing.
unfoldable pub texts : List Node → List Text
texts [] = []
texts (n ∷ ns) = let rest = texts ns in elim (text (some n)) [ none ↦ rest | some s ↦ s ∷ rest ]

-- `el.get(key)`
unfoldable pub attribute : Text → List (Text × Text) → Option Text
attribute key [] = none
attribute key ((k, v) ∷ rest) = if text_eq k key then some v else attribute key rest

-- ===== src/Repair/Rebuild.antt =====
-- packages/repair_engine/xml_reconstruction.py: changes of the texts of a document. What raises (an
-- index that is not a number, or lies before the first match) is `none`. The white space that lxml
-- keeps behind elements (`tail`) and the pretty printing are left out.
pub mod Growth
pub mod Frame
pub mod Navigate
pub mod Changed
pub mod Single
pub mod Applied
mod Tests
use mathlib.Core.Option
use payment_ops.Prelude.{
  ℕ, suc, ◌-◌, Bool, true, false, not, ◌&&◌, Option, none, some, List, [], ◌∷◌, ◌++◌, Text, codes,
  text_eq, map, ◌==◌, ◌+◌, ◌>>=◌, nonempty, length, ltb, leb, reverse, if◌then◌else◌,
}
use payment_ops.Prelude.Int.{ℤ, pos, negsuc}
use payment_ops.Unicode.{Unicode, parse_int}
use payment_ops.Xml.{
  Node, tag_of, after_first, kids, with_kids, with_text, element, local_name, named, before_first,
  contains, tail_of,
}
use payment_ops.Xml.Places.{Step, Place, nth, walk, update}
use payment_ops.Repair.{DiffEntry, ChangeStatus, segments}

-- `_POSTAL_ADDRESS_ORDER`
abbrev pub postal_address_order : List Text
postal_address_order = map codes (
    "AdrTp" ∷ "Dept" ∷ "SubDept" ∷ "StrtNm" ∷ "BldgNb" ∷ "PstCd" ∷ "TwnNm" ∷ "Ctry" ∷ "AdrLine"
    ∷ [])

-- The position in the order, or its length.
unfoldable pub position : Text → List Text → ℕ
position name [] = 0
position name (s ∷ ss) = let rest = position name ss in if text_eq s name then 0 else suc rest

abbrev pub rank : Node → ℕ
rank n = position (local_name n) postal_address_order

unfoldable pub insert : Node → List Node → List Node
insert n [] = n ∷ []
insert n (m ∷ ms) = let rest = insert n ms in if leb (rank n) (rank m) then n ∷ m ∷ ms else m ∷ rest

-- `_reorder_children`: a stable sort.
unfoldable pub reorder : List Node → List Node
reorder [] = []
reorder (n ∷ ns) = insert n (reorder ns)

-- `s.rstrip(c)`
unfoldable pub rstrip_char : ℕ → Text → Text
rstrip_char c [] = []
rstrip_char c (d ∷ s) =
    let rest = rstrip_char c s in if (d == c) && not (nonempty rest) then [] else d ∷ rest

-- `_strip_index`
abbrev pub strip_index : Text → Text
strip_index s = before_first b'[' s

-- `_ns`; the parent of a leaf is an element, whose tag is a text.
abbrev pub namespace_of : Option Text → Text
namespace_of none = []
namespace_of (some tag) = if contains b'}' tag then before_first b'}' (tail_of tag) else []

-- `etree.SubElement(parent, f"{{{ns}}}{leaf_name}")` with its text, and the children in order; lxml
-- writes a name without a namespace as `name` in place of `{}name`.
unfoldable pub insert_child : Text → Option Text → Node → Node
insert_child leaf value parent =
    let name = b'{' ∷ namespace_of (tag_of parent) ++ b'}' ∷ leaf in
    with_kids (reorder (kids parent ++ element name value [] ∷ [])) parent

-- `matches[index]`, with the place among the matches; a negative index counts from the end.
unfoldable pub pick : Text → ℤ → List Node → Option (Option (Step × Node))
pick name (pos k) ns = some (Option.map (λ n. ((name, k), n)) (nth k ns))
pick name (negsuc k) ns =
    if ltb k (length ns)
    then some (Option.map (λ n. ((name, length ns - suc k), n)) (nth (length ns - suc k) ns))
    else none

-- On from a child, if there is one.
unfoldable pub descend :
    (Node → Option (Option Place)) → Option (Step × Node) → Option (Option Place)
descend go none = some none
descend go (some (step, c)) = go c >>= λ o. some (Option.map (λ p. step ∷ p) o)

-- The document with the missing leaf.
unfoldable pub create_at : Node → Option Place → Text → Option Text → Option Node
create_at root none leaf value = none
create_at root (some parent) leaf value =
    if ltb (position leaf postal_address_order) (length postal_address_order)
    then some (update parent (insert_child leaf value) root)
    else none

abbrev pub all_but_last : List Text → List Text
all_but_last [] = []
all_but_last (s ∷ []) = []
all_but_last (s ∷ t ∷ ss) = s ∷ all_but_last (t ∷ ss)

abbrev pub last_of : Text → List Text → Text
last_of s [] = s
last_of s (t ∷ ss) = last_of t ss

abbrev pub with_status : ChangeStatus → DiffEntry → DiffEntry
with_status status change = record change { status = status }

-- The document and the entry that follow from the outcome of a change.
unfoldable pub outcome : Node → DiffEntry → Option Node → Node × DiffEntry
outcome root change none = (root, with_status ChangeStatus.rejected change)
outcome root change (some changed) = (changed, with_status ChangeStatus.validated change)

module _ (u : Unicode) where
  unfoldable pub index_of : Text → Option ℤ
  index_of segment =
      if nonempty (after_first b'[' segment)
      then parse_int u (rstrip_char b']' (after_first b'[' segment))
      else some (pos 0)

  -- `_child_by_local`: the child with its step.
  unfoldable pub child_by_local : Node → Text → Option (Option (Step × Node))
  child_by_local n segment =
      index_of segment >>= λ i. pick (strip_index segment) i (named (strip_index segment) (kids n))

  -- The place below an element.
  unfoldable pub navigate_from : Node → List Text → Option (Option Place)
  navigate_from n [] = some (some [])
  navigate_from n (segment ∷ rest) =
      child_by_local n segment >>= descend (λ c. navigate_from c rest)

  unfoldable pub navigate_segments : Node → List Text → Option (Option Place)
  navigate_segments root [] = some none
  navigate_segments root (segment ∷ rest) =
      if text_eq (local_name root) (strip_index segment)
      then navigate_from root rest
      else navigate_from root (segment ∷ rest)

  -- `_navigate`
  abbrev pub navigate : Node → Text → Option (Option Place)
  navigate root path = navigate_segments root (segments path)

  -- `_create_missing`: the parent's path is split into the segments that it was joined from.
  unfoldable pub create_missing : Node → List Text → Option Text → Option (Option Node)
  create_missing root [] value = some none
  create_missing root (s ∷ []) value = some none
  create_missing root (s ∷ t ∷ ss) value =
      navigate_segments root (all_but_last (s ∷ t ∷ ss)) >>= λ parent.
      some (create_at root parent (strip_index (last_of t ss)) value)

  -- The document after the change, if it could be applied.
  unfoldable pub apply_found : Node → DiffEntry → Option Place → Option (Option Node)
  apply_found root change (some place) = some (some (update place (with_text change.after) root))
  apply_found root change none = create_missing root (segments change.path) change.after

  -- `_apply_one`
  unfoldable pub apply_one : Node → DiffEntry → Option (Option Node)
  apply_one root change = navigate root change.path >>= apply_found root change

  -- `apply_changes`
  unfoldable pub apply_changes : Node → List DiffEntry → Option (Node × List DiffEntry)
  apply_changes root [] = some (root, [])
  apply_changes root (change ∷ rest) = apply_one root change >>= λ o.
      apply_changes (outcome root change o).0 rest >>= λ done.
      some (done.0, (outcome root change o).1 ∷ done.1)

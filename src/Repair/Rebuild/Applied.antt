-- ===== src/Repair/Rebuild/Applied.antt =====
-- A list of changes, one after the other.
use mathlib.Core.Option
use payment_ops.Prelude.{
  ◌≡◌, ◌≢◌, refl, ap, ◌∙◌, true, Option, none, some, List, [], ◌∷◌, Text, text_eq, map, is_some,
  All,
}
use payment_ops.Unicode.{Unicode}
use payment_ops.Xml.{Node, local_name, tag_of, text_of}
use payment_ops.Xml.Places.{Place, walk}
use payment_ops.Repair.{DiffEntry, ChangeStatus}
use payment_ops.Repair.Rebuild.{strip_index, apply_changes, outcome, with_status}
use payment_ops.Repair.Rebuild.Frame.{text_at}
use payment_ops.Repair.Rebuild.Changed.{LeafPath, leaf_place, HasParent, IsChanged}
use payment_ops.Repair.Rebuild.Single.{apply_one-IsChanged}

local_name-tag : (n m : Node) → tag_of n ≡ tag_of m → local_name n ≡ local_name m
unfolding local_name
local_name-tag n m e = rw (e, local_name) refl

is_set : {v : Option Text} (o : Option Node) → Option.map text_of o ≡ some v → is_some o ≡ true
is_set none h = cc
is_set (some n) h = refl

module _ (u : Unicode) where
  abbrev pub ArePaths : List DiffEntry → Type 0
  ArePaths changes = All (λ c. LeafPath u c.path) changes

  abbrev pub HaveParents : Node → (changes : List DiffEntry) → ArePaths changes → Type 0
  HaveParents root [] t = Unit
  HaveParents root (c ∷ cs) t = HasParent root t.0 × HaveParents root cs t.1

  -- The place is not the place of a change.
  abbrev pub IsUntouched : Place → (changes : List DiffEntry) → ArePaths changes → Type 0
  IsUntouched q [] t = Unit
  IsUntouched q (c ∷ cs) t = (q ≢ leaf_place t.0) × IsUntouched q cs t.1

  -- The value of every change that no later one overwrites is the text at its place.
  abbrev pub AreWritten : Node → (changes : List DiffEntry) → ArePaths changes → Type 0
  AreWritten after [] t = Unit
  AreWritten after (c ∷ cs) t =
      (IsUntouched (leaf_place t.0) cs t.1 → text_at (leaf_place t.0) after ≡ some c.after)
      × AreWritten after cs t.1

  HasParent-IsChanged :
      {path : Text} (t : LeafPath u path) {place : Place} {value : Option Text}
      {before after : Node}
      → IsChanged place value before after
      → HasParent before t
      → HasParent after t
  HasParent-IsChanged t c h = (
    ap (λ n. text_eq n (strip_index t.head)) (local_name-tag _ _ c.tag) ∙ h.0,
    c.elements t.parent h.1,
  )

  HaveParents-IsChanged :
      (changes : List DiffEntry) (t : ArePaths changes) {place : Place} {value : Option Text}
      {before after : Node}
      → IsChanged place value before after
      → HaveParents before changes t
      → HaveParents after changes t
  HaveParents-IsChanged [] t c h = tt
  HaveParents-IsChanged (d ∷ ds) t c h =
      (HasParent-IsChanged t.0 c h.0, HaveParents-IsChanged ds t.1 c h.1)

  -- Every change of a leaf of an address that the document has a parent for is validated,
  -- whatever changes come before it; its value is the text at its place unless a later change
  -- overwrites it; the tag of the root and the text of every element at another place stay as they
  -- were.
  pub apply_changes-validated :
      (changes : List DiffEntry) (t : ArePaths changes) (root : Node)
      → HaveParents root changes t
      → (after : Node) × (apply_changes u root changes
          ≡ some (after, map (with_status ChangeStatus.validated) changes))
        × (tag_of after ≡ tag_of root)
        × AreWritten after changes t
        × ((q : Place)
            → IsUntouched q changes t
            → is_some (walk q root) ≡ true
            → text_at q after ≡ text_at q root)
  unfolding apply_changes outcome
  apply_changes-validated [] t root h = (root, refl, refl, tt, λ q un e. refl)
  apply_changes-validated (c ∷ cs) t root h =
      let (first, applied, changed) = apply_one-IsChanged u root c t.0 h.0 in
      let (last, done, tag, written, rest) =
        apply_changes-validated cs t.1 first (HaveParents-IsChanged cs t.1 changed h.1) in
      (
        last,
        rw (applied, done) refl,
        tag ∙ changed.tag,
        (
          λ un.
              rest (leaf_place t.0) un (is_set (walk (leaf_place t.0) first) changed.set)
              ∙ changed.set,
          written,
        ),
        λ q un e. rest q un.1 (changed.elements q e) ∙ changed.others q un.0 e,
      )

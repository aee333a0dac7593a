-- ===== src/Repair/Rebuild/Single.antt =====
-- What becomes of a change of a leaf whose parent is in the document.
use mathlib.Core.Option
use mathlib.Core.Option.{some-injective}
use payment_ops.Prelude.{
  ℕ, ◌≡◌, refl, ap, true, Option, none, some, List, [], ◌∷◌, ◌++◌, Text, text_eq, ◌>>=◌, is_some,
  Option-cases, inl, inr,
}
use payment_ops.Unicode.{Unicode}
use payment_ops.Xml.{Node, local_name, with_text}
use payment_ops.Xml.Places.{Place, walk, update}
use payment_ops.Repair.{DiffEntry}
use payment_ops.Repair.Rebuild.{
  strip_index, navigate_segments, navigate, create_at, all_but_last, last_of, create_missing,
  apply_found, apply_one, insert_child,
}
use payment_ops.Repair.Rebuild.Navigate.{Spells, done, step, Spells-append, navigate_from-walk}
use payment_ops.Repair.Rebuild.Changed.{
  LeafPath, leaf_place, HasParent, IsChanged, set-IsChanged, create-IsChanged,
}

missing : {o : Option Node} → is_some o ≡ true → o ≡ none → ⊥
missing h e = cc

spelled_name :
    {u : Unicode} {s name : Text} {k : ℕ}
    → Spells u (s ∷ []) ((name, k) ∷ [])
    → strip_index s ≡ name
spelled_name (step e i done) = e

last_of-append : (s leaf : Text) (ss : List Text) → last_of s (ss ++ leaf ∷ []) ≡ leaf
last_of-append s leaf [] = refl
last_of-append s leaf (t ∷ ss) = last_of-append t leaf ss

all_but_last-append : (s leaf : Text) (ss : List Text) → all_but_last (s ∷ ss ++ leaf ∷ []) ≡ s ∷ ss
all_but_last-append s leaf [] = refl
all_but_last-append s leaf (t ∷ ss) = ap (λ r. s ∷ r) (all_but_last-append t leaf ss)

module _ (u : Unicode) (root : Node) where
  -- Below the root that the first segment names.
  navigate_segments-walk :
      (head : Text) {ss : List Text} {p : Place}
      → text_eq (local_name root) (strip_index head) ≡ true
      → Spells u ss p
      → navigate_segments u root (head ∷ ss) ≡ some (Option.map (λ m. p) (walk p root))
  unfolding navigate_segments
  navigate_segments-walk head h s = rw h (navigate_from-walk u s root)

  create_missing-append :
      (s leaf : Text) (ss : List Text) (value : Option Text)
      → create_missing u root (s ∷ ss ++ leaf ∷ []) value ≡ (
          navigate_segments u root (s ∷ ss) >>= λ parent.
          some (create_at root parent (strip_index leaf) value))
  unfolding create_missing
  create_missing-append s leaf [] value = refl
  create_missing-append s leaf (t ∷ ss) value =
      rw (all_but_last-append s leaf (t ∷ ss), last_of-append t leaf ss) refl

  navigate-found :
      (path : Text) (t : LeafPath u path)
      → HasParent root t
      → (o : Option Node) → walk (leaf_place t) root ≡ o
      → navigate u root path ≡ some (Option.map (λ m. leaf_place t) o)
  navigate-found path t r o e =
      rw
        (
          t.path_segments,
          navigate_segments-walk t.head r.0 (Spells-append t.spelled t.leaf_name),
          e,
        )
        refl

  apply_one-set :
      (change : DiffEntry) (t : LeafPath u change.path)
      → HasParent root t
      → (n : Node) → walk (leaf_place t) root ≡ some n
      → apply_one u root change ≡ some (some (update (leaf_place t) (with_text change.after) root))
  unfolding apply_one apply_found
  apply_one-set change t r n e = rw (navigate-found change.path t r (some n) e) refl

  apply_one-create :
      (change : DiffEntry) (t : LeafPath u change.path)
      → HasParent root t
      → (n : Node) → walk (leaf_place t) root ≡ none
      → walk t.parent root ≡ some n
      → apply_one u root change
        ≡ some (some (update t.parent (insert_child t.leaf change.after) root))
  unfolding apply_one apply_found create_at
  apply_one-create change t r n e p =
      rw
        (
          navigate-found change.path t r none e,
          t.path_segments,
          create_missing-append t.head t.leaf t.middle change.after,
          navigate_segments-walk t.head r.0 t.spelled,
          p,
          spelled_name t.leaf_name,
          t.leaf_known,
        )
        refl

  pub apply_one-IsChanged :
      (change : DiffEntry) (t : LeafPath u change.path)
      → HasParent root t
      → (after : Node) × (apply_one u root change ≡ some (some after))
        × IsChanged (leaf_place t) change.after root after
  apply_one-IsChanged change t r = elim (Option-cases (walk (leaf_place t) root)) [
    | inr (n, e) ↦
        (_, apply_one-set change t r n e, set-IsChanged (leaf_place t) change.after root n e)
    | inl e ↦ elim (Option-cases (walk t.parent root)) [
      | inl p ↦ absurd (missing r.1 p)
      | inr (n, p) ↦ (
        _,
        apply_one-create change t r n e p,
        create-IsChanged t.parent t.leaf change.after root n t.leaf_plain p e,
      )
    ]
  ]

-- ===== src/Repair/Rebuild/Changed.antt =====
-- What a change of a leaf makes of a document.
use mathlib.Core.Option
use mathlib.Core.Option.{some-injective}
use payment_ops.Prelude.{
  ◌≡◌, ◌≢◌, refl, ap, sym, ◌∙◌, true, false, Option, none, some, List, [], ◌∷◌, ◌++◌, Text, text_eq,
  text_eq_refl, ◌>>=◌, arith, is_some, ◌==◌, any-append, ltb, length,
}
use payment_ops.Unicode.{Unicode}
use payment_ops.Xml.{
  Node, kids, with_kids, tag_of, local_name, named, with_text, text_of, after_last, contains,
  element,
}
use payment_ops.Xml.Places.{Place, nth, walk, update, kids-with_kids}
use payment_ops.Repair.{segments}
use payment_ops.Repair.Rebuild.{
  strip_index, position, postal_address_order, insert_child, namespace_of,
}
use payment_ops.Repair.Rebuild.Growth.{
  Grows-update, Grows-with_text, Grows-insert_child, walk-update, named-reorder,
}
use payment_ops.Repair.Rebuild.Frame.{text_at, KeepsText-set, KeepsText-create}
use payment_ops.Repair.Rebuild.Navigate.{Spells, walk-append}

any-last : (s leaf : Text) → contains b'}' (s ++ b'}' ∷ leaf) ≡ true
any-last s leaf = ground (arith, any-append (λ d. d == b'}') s (b'}' ∷ leaf))

after_last-append :
    (s leaf : Text) → contains b'}' leaf ≡ false → after_last b'}' (s ++ b'}' ∷ leaf) ≡ leaf
unfolding after_last
after_last-append [] leaf h = ground (arith, h)
after_last-append (d ∷ s) leaf h = ground (arith, any-last s leaf, after_last-append s leaf h)

named-append-new :
    (leaf : Text) (ns : List Node) (new : Node)
    → local_name new ≡ leaf
    → nth 0 (named leaf ns) ≡ none
    → nth 0 (named leaf (ns ++ new ∷ [])) ≡ some new
unfolding nth named
named-append-new leaf [] new e h = ground (arith, e, text_eq_refl leaf)
named-append-new leaf (n ∷ ns) new e h = ground (arith, named-append-new leaf ns new e)

-- The new child is the first of its name, if there was none.
nth-insert_child-new :
    (leaf : Text) (value : Option Text) (n : Node)
    → contains b'}' leaf ≡ false
    → nth 0 (named leaf (kids n)) ≡ none
    → Option.map text_of (nth 0 (named leaf (kids (insert_child leaf value n)))) ≡ some value
unfolding insert_child
nth-insert_child-new leaf value n plain h =
    rw
      (
        kids-with_kids,
        named-reorder,
        named-append-new leaf (kids n)
            (element (b'{' ∷ namespace_of (tag_of n) ++ b'}' ∷ leaf) value [])
            (unfold local_name in after_last-append (b'{' ∷ namespace_of (tag_of n)) leaf plain) h,
      )
      refl

-- A path to a leaf of an address below the root of a document.
pub record LeafPath (u : Unicode) (path : Text) : Type 0 where
  pub head : Text
  pub middle : List Text
  pub leaf : Text
  pub parent : Place
  pub path_segments : segments path ≡ head ∷ middle ++ leaf ∷ []
  pub spelled : Spells u middle parent
  pub leaf_name : Spells u (leaf ∷ []) ((leaf, 0) ∷ [])
  pub leaf_plain : contains b'}' leaf ≡ false
  pub leaf_known : ltb (position leaf postal_address_order) (length postal_address_order) ≡ true

abbrev pub leaf_place : {u : Unicode} {path : Text} → LeafPath u path → Place
leaf_place t = t.parent ++ (t.leaf, 0) ∷ []

-- The document has the root that the path names and an element where the parent of the leaf is.
abbrev pub HasParent : {u : Unicode} {path : Text} → Node → LeafPath u path → Type 0
HasParent root t =
    (text_eq (local_name root) (strip_index t.head) ≡ true) × (is_some (walk t.parent root) ≡ true)

-- The document after a change of the text at a place: that text is new, the root keeps its tag,
-- every place that had an element still has one, and the text at every other such place is as it was.
pub record IsChanged (place : Place) (value : Option Text) (before after : Node) : Type 0 where
  pub set : text_at place after ≡ some value
  pub tag : tag_of after ≡ tag_of before
  pub elements : (q : Place) → is_some (walk q before) ≡ true → is_some (walk q after) ≡ true
  pub others :
      (q : Place) → q ≢ place → is_some (walk q before) ≡ true → text_at q after ≡ text_at q before

text_of-with_text : (value : Option Text) (n : Node) → text_of (with_text value n) ≡ value
text_of-with_text value (Node.node tag attributes text ns) = refl

tag_of-with_text : (value : Option Text) (n : Node) → tag_of (with_text value n) ≡ tag_of n
tag_of-with_text value (Node.node tag attributes text ns) = refl

tag_of-with_kids : (ns : List Node) (n : Node) → tag_of (with_kids ns n) ≡ tag_of n
tag_of-with_kids ns (Node.node tag attributes text old) = refl

tag_of-insert_child :
    (leaf : Text) (value : Option Text) (n : Node) → tag_of (insert_child leaf value n) ≡ tag_of n
unfolding insert_child
tag_of-insert_child leaf value n = tag_of-with_kids _ n

tag_of-update :
    (p : Place) (f : Node → Node)
    → ((n : Node) → tag_of (f n) ≡ tag_of n)
    → (n : Node) → tag_of (update p f n) ≡ tag_of n
unfolding update
tag_of-update [] f keep n = keep n
tag_of-update ((name, k) ∷ p) f keep n = tag_of-with_kids _ n

pub set-IsChanged :
    (place : Place) (value : Option Text) (root n : Node)
    → walk place root ≡ some n
    → IsChanged place value root (update place (with_text value) root)
set-IsChanged place value root n e = record {
  set =
      rw (walk-update (with_text value) (Grows-with_text value) place root, e)
        (ap (λ t. some t) (text_of-with_text value n));
  tag = tag_of-update place (with_text value) (tag_of-with_text value) root;
  elements = λ q h. (Grows-update (with_text value) (Grows-with_text value) place).place q root h;
  others = λ q other h. KeepsText-set value place q other root h;
}

walk-step : (leaf : Text) (n : Node) → walk ((leaf, 0) ∷ []) n ≡ nth 0 (named leaf (kids n))
unfolding walk
walk-step leaf n = bind_some (nth 0 (named leaf (kids n)))
  where
    bind_some : (o : Option Node) → (o >>= λ m. walk [] m) ≡ o
    bind_some none = refl
    bind_some (some m) = unfold walk in refl

walk-leaf :
    (parent : Place) (leaf : Text) (root n : Node)
    → walk parent root ≡ some n
    → walk (parent ++ (leaf, 0) ∷ []) root ≡ nth 0 (named leaf (kids n))
walk-leaf parent leaf root n found =
    rw (walk-append parent ((leaf, 0) ∷ []) root, found) (walk-step leaf n)

create-text :
    (parent : Place) (leaf : Text) (value : Option Text) (root n : Node)
    → contains b'}' leaf ≡ false
    → walk parent root ≡ some n
    → walk (parent ++ (leaf, 0) ∷ []) root ≡ none
    → text_at (parent ++ (leaf, 0) ∷ []) (update parent (insert_child leaf value) root) ≡ some value
create-text parent leaf value root n plain found missing =
    let after =
      walk-update (insert_child leaf value) (Grows-insert_child leaf value) parent root
      ∙ ap (Option.map (insert_child leaf value)) found in
    rw
      (walk-leaf parent leaf (update parent (insert_child leaf value) root)
        (insert_child leaf value n) after)
      (nth-insert_child-new leaf value n plain (sym (walk-leaf parent leaf root n found) ∙ missing))

pub create-IsChanged :
    (parent : Place) (leaf : Text) (value : Option Text) (root n : Node)
    → contains b'}' leaf ≡ false
    → walk parent root ≡ some n
    → walk (parent ++ (leaf, 0) ∷ []) root ≡ none
    → IsChanged (parent ++ (leaf, 0) ∷ []) value root (update parent (insert_child leaf value) root)
create-IsChanged parent leaf value root n plain found missing = record {
  set = create-text parent leaf value root n plain found missing;
  tag = tag_of-update parent (insert_child leaf value) (tag_of-insert_child leaf value) root;
  elements = λ q h.
      (Grows-update (insert_child leaf value) (Grows-insert_child leaf value) parent).place q root
        h;
  others = λ q other h. KeepsText-create leaf value parent q root h;
}

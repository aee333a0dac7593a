-- ===== src/Iso/Paths.antt =====
-- The paths that packages/iso_engine/pacs008/adapter.py gives to parts of a message, as
-- packages/repair_engine/xml_reconstruction.py reads them.
pub mod Placed
pub mod Proposed
pub mod Applied
use mathlib.Core.Option
use mathlib.Core.List.{append_assoc}
use payment_ops.Prelude.{
  ℕ, zero, suc, ◌+◌, ◌≤◌, ◌≡◌, refl, sym, ap, ◌∙◌, Bool, true, false, ◌&&◌, ◌||◌, not, Option, none,
  some, List, [], ◌∷◌, ◌++◌, Text, codes, text_eq, ◌>>=◌, All, arith, nonempty, if◌then◌else◌, ◌==◌,
  append-nil, nonempty-append,
}
use payment_ops.Prelude.Int.{pos}
use payment_ops.Unicode.{Unicode, split_on, add_char, parse_int}
use payment_ops.Mapping.Fresh.{show_index}
use payment_ops.Mapping.Index.{
  AreDecimal, show_index-AreDecimal, nonempty-show_index, parse_int-show_index,
}
use payment_ops.Xml.{Node, kids, named, child, first, before_first, after_first}
use payment_ops.Xml.Places.{Place, nth, walk}
use payment_ops.Repair.{segments, drop_empty}
use payment_ops.Repair.Mapped.{lacks}
use payment_ops.Repair.Rebuild.{strip_index, index_of, rstrip_char}
use payment_ops.Repair.Rebuild.Navigate.{Spells, done, step, Spells-append, walk-append}

first_piece : (sep : ℕ) (pieces : List Text) → add_char sep sep pieces ≡ [] ∷ pieces
unfolding add_char
first_piece sep [] = ground arith
first_piece sep (p ∷ ps) = ground arith

nonempty-add_char : (sep c : ℕ) (pieces : List Text) → nonempty (add_char sep c pieces) ≡ true
unfolding add_char
nonempty-add_char sep c [] = ground arith
nonempty-add_char sep c (p ∷ ps) = ground arith

nonempty-split_on : (sep : ℕ) (s : Text) → nonempty (split_on sep s) ≡ true
unfolding split_on
nonempty-split_on sep [] = refl
nonempty-split_on sep (c ∷ s) = nonempty-add_char sep c (split_on sep s)

add_char-append :
    (sep c : ℕ) (xs ys : List Text)
    → nonempty xs ≡ true
    → add_char sep c (xs ++ ys) ≡ add_char sep c xs ++ ys
unfolding add_char
add_char-append sep c [] ys h = cc
add_char-append sep c (x ∷ xs) ys h = ground arith

-- A separator between two texts separates their pieces.
split_on-append :
    (sep : ℕ) (a b : Text) → split_on sep (a ++ sep ∷ b) ≡ split_on sep a ++ split_on sep b
unfolding split_on
split_on-append sep [] b = first_piece sep (split_on sep b)
split_on-append sep (c ∷ a) b =
    ap (add_char sep c) (split_on-append sep a b)
    ∙ add_char-append sep c (split_on sep a) (split_on sep b) (nonempty-split_on sep a)

split_on-lacks : (sep : ℕ) (s : Text) → lacks sep s ≡ true → split_on sep s ≡ s ∷ []
unfolding split_on lacks add_char
split_on-lacks sep [] h = refl
split_on-lacks sep (c ∷ s) h = ground (arith, split_on-lacks sep s)

drop_empty-append : (xs ys : List Text) → drop_empty (xs ++ ys) ≡ drop_empty xs ++ drop_empty ys
unfolding drop_empty
drop_empty-append [] ys = refl
drop_empty-append (x ∷ xs) ys = ground (arith, drop_empty-append xs ys)

pub segments-append : (a b : Text) → segments (a ++ b'/' ∷ b) ≡ segments a ++ segments b
unfolding segments
segments-append a b =
    rw (split_on-append b'/' a b) (drop_empty-append (split_on b'/' a) (split_on b'/' b))

or-true : (b : Bool) → (b || true) ≡ true
or-true true = refl
or-true false = refl

segments-lacks : (c : ℕ) (s : Text) → lacks b'/' (c ∷ s) ≡ true → segments (c ∷ s) ≡ (c ∷ s) ∷ []
unfolding segments drop_empty
segments-lacks c s h = rw (split_on-lacks b'/' (c ∷ s) h) refl

lacks-decimal : (s : Text) → AreDecimal s → lacks b'/' (s ++ codes "]") ≡ true
unfolding lacks
lacks-decimal [] h = refl
lacks-decimal (c ∷ s) h = ground (arith, h.0.0, lacks-decimal s h.1)

rstrip_char-decimal : (s : Text) → AreDecimal s → rstrip_char b']' (s ++ codes "]") ≡ s
unfolding rstrip_char
rstrip_char-decimal [] h = refl
rstrip_char-decimal (c ∷ s) h = ground (arith, h.0.1, rstrip_char-decimal s h.1)

first-nth : (ns : List Node) → first ns ≡ nth 0 ns
unfolding nth
first-nth [] = refl
first-nth (n ∷ ns) = refl

module _ (u : Unicode) (root : Node) where
  -- The path below the document leads to the element.
  pub record At (path : Text) (n : Node) : Type 0 where
    pub below : List Text
    pub place : Place
    pub path_segments : segments path ≡ codes "Document" ∷ below
    pub spelled : Spells u below place
    pub found : walk place root ≡ some n

  -- A step of a path that is one segment and names the child of a name and number.
  abbrev pub IsStep : Text → Text → ℕ → Type 0
  IsStep segment name k =
      (segments segment ≡ segment ∷ []) × Spells u (segment ∷ []) ((name, k) ∷ [])

  walk-last :
      (p : Place) (n c : Node) (name : Text) (k : ℕ)
      → walk p root ≡ some n
      → nth k (named name (kids n)) ≡ some c
      → walk (p ++ (name, k) ∷ []) root ≡ some c
  walk-last p n c name k e h =
      rw (walk-append p ((name, k) ∷ []) root, e) (unfold walk in rw h refl)

  pub At-nth :
      (path segment name : Text) (k : ℕ) (n c : Node)
      → IsStep segment name k
      → At path n
      → nth k (named name (kids n)) ≡ some c
      → At (path ++ b'/' ∷ segment) c
  At-nth path segment name k n c is a h = record {
    below = a.below ++ segment ∷ [];
    place = a.place ++ (name, k) ∷ [];
    path_segments =
        segments-append path segment
        ∙ ap (λ s. s ++ segments segment) a.path_segments
        ∙ ap (λ s. codes "Document" ∷ a.below ++ s) is.0;
    spelled = Spells-append a.spelled is.1;
    found = walk-last a.place n c name k a.found h;
  }

  pub At-child :
      (path name : Text) (n c : Node)
      → IsStep name name 0
      → At path n
      → child (some n) name ≡ some c
      → At (path ++ b'/' ∷ name) c
  At-child path name n c is a h =
      At-nth path name name 0 n c is a (sym (first-nth (named name (kids n))) ∙ h)

  pub At-document : At (codes "/Document") root
  At-document = record {
    below = [];
    place = [];
    path_segments =
        unfold segments in unfold drop_empty in unfold split_on in unfold add_char in refl;
    spelled = done;
    found = unfold walk in refl;
  }

  -- `CdtTrfTxInf[i]` is one segment, which names the child of that number.
  abbrev pub indexed : ℕ → Text
  indexed i = codes "CdtTrfTxInf[" ++ show_index i ++ codes "]"

  index_of-indexed : (i : ℕ) → index_of u (indexed i) ≡ some (pos i)
  unfolding index_of after_first
  index_of-indexed i =
      rw
        (
          nonempty-append (show_index i) (codes "]"),
          or-true (nonempty (show_index i)),
          rstrip_char-decimal (show_index i) (show_index-AreDecimal i),
        )
        (parse_int-show_index u i)

  strip_index-indexed : (i : ℕ) → strip_index (indexed i) ≡ codes "CdtTrfTxInf"
  unfolding before_first
  strip_index-indexed i = refl

  pub IsStep-indexed : (i : ℕ) → IsStep (indexed i) (codes "CdtTrfTxInf") i
  IsStep-indexed i = (
    segments-lacks b'C' (codes "dtTrfTxInf[" ++ show_index i ++ codes "]")
        (unfold lacks in lacks-decimal (show_index i) (show_index-AreDecimal i)),
    step (strip_index-indexed i) (index_of-indexed i) done,
  )

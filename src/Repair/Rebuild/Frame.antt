-- ===== src/Repair/Rebuild/Frame.antt =====
-- What a change leaves in the document: the texts of all other elements.
use mathlib.Core.Option
use payment_ops.Prelude.{
  ℕ, ◌≡◌, ◌≢◌, refl, ap, ◌∙◌, Bool, true, false, Option, none, some, [], ◌∷◌, ◌++◌, Text, text_eq,
  text_eq_sound, ◌>>=◌, arith, if◌then◌else◌, is_some, ◌==◌, ◌&&◌, append-nil,
}
use payment_ops.Xml.{Node, kids, named, with_text, text_of}
use payment_ops.Xml.Places.{
  Place, nth, walk, update_named, update, kids-with_kids, text_of-with_kids,
}
use payment_ops.Repair.Rebuild.{insert_child}
use payment_ops.Repair.Rebuild.Growth.{
  Grows, Grows-update, nth-update_named, nth-insert_child, is_some-source, kids-with_text,
  Grows-with_text, Grows-insert_child,
}

-- The text of the element at a place.
abbrev pub text_at : Place → Node → Option (Option Text)
text_at q n = Option.map text_of (walk q n)

-- The function keeps the text at a place, wherever there is an element.
abbrev pub KeepsText : (Node → Node) → Place → Type 0
KeepsText f q = (n : Node) → is_some (walk q n) ≡ true → text_at q (f n) ≡ text_at q n

-- The text at a place below a child, in the child or in what became of it.
text_at-chosen :
    (b : Bool) (f : Node → Node) (q : Place) (o : Option Node)
    → (b ≡ true → KeepsText f q)
    → is_some (o >>= walk q) ≡ true
    → Option.map text_of ((if b then Option.map f o else o) >>= walk q)
      ≡ Option.map text_of (o >>= walk q)
text_at-chosen true f q none h e = refl
text_at-chosen true f q (some n) h e = h refl n e
text_at-chosen false f q o h e = refl

same_steps :
    (m name : Text) (j k : ℕ) (q p : Place)
    → (text_eq m name && (j == k)) ≡ true
    → q ≡ p
    → (m, j) ∷ q ≡ (name, k) ∷ p
same_steps m name j k q p h e = ground (arith, text_eq_sound m name)

KeepsText-step :
    (f : Node → Node)
    → Grows f
    → (m name : Text) (j k : ℕ) (q p : Place)
    → ((text_eq m name && (j == k)) ≡ true → KeepsText (update p f) q)
    → KeepsText (update ((name, k) ∷ p) f) ((m, j) ∷ q)
unfolding walk update
KeepsText-step f g m name j k q p below n e =
    rw (kids-with_kids, nth-update_named (update p f) (Grows-update f g p).name m name j k (kids n))
      (text_at-chosen (text_eq m name && (j == k)) (update p f) q (nth j (named m (kids n))) below
        e)

-- If a function keeps the texts below an element but for some places, an update keeps the texts of
-- all places that are not one of these below the place of the update.
pub KeepsText-update :
    (f : Node → Node)
    → Grows f
    → (Q : Place → Type 0) → ((q : Place) → Q q → KeepsText f q)
    → (p q : Place) → ((r : Place) → q ≡ p ++ r → Q r)
    → KeepsText (update p f) q
unfolding update walk
KeepsText-update f g Q keep [] q h = keep q (h q refl)
KeepsText-update f g Q keep ((name, k) ∷ p) [] h =
    λ n e. ap (λ t. some t) (text_of-with_kids (update_named name k (update p f) (kids n)) n)
KeepsText-update f g Q keep ((name, k) ∷ p) ((m, j) ∷ q) h =
    KeepsText-step f g m name j k q p (λ same.
      KeepsText-update f g Q keep p q (λ r e. h r (same_steps m name j k q (p ++ r) same e)))

abbrev IsPlace : Place → Type 0
IsPlace q = Unit

abbrev IsBelow : Place → Type 0
IsBelow q = q ≢ []

KeepsText-with_text : (value : Option Text) (q : Place) → IsBelow q → KeepsText (with_text value) q
unfolding walk
KeepsText-with_text value [] h n e = absurd (h refl)
KeepsText-with_text value ((m, j) ∷ q) h n e = rw (kids-with_text value n) refl

KeepsText-insert_child :
    (leaf : Text) (value : Option Text) (q : Place)
    → IsPlace q
    → KeepsText (insert_child leaf value) q
unfolding walk
KeepsText-insert_child leaf value [] h n e = ap some (unfold insert_child in text_of-with_kids _ n)
KeepsText-insert_child leaf value ((m, j) ∷ q) h n e =
    rw (nth-insert_child leaf value m j n (is_some-source (nth j (named m (kids n))) (walk q) e))
      refl

-- A new text of an element changes no other text.
pub KeepsText-set :
    (value : Option Text) (p q : Place) → q ≢ p → KeepsText (update p (with_text value)) q
KeepsText-set value p q other =
    KeepsText-update (with_text value) (Grows-with_text value) IsBelow (KeepsText-with_text value) p
      q (λ r e empty. other (e ∙ ap (λ s. p ++ s) empty ∙ append-nil p))

-- A new child changes no text.
pub KeepsText-create :
    (leaf : Text) (value : Option Text) (p q : Place)
    → KeepsText (update p (insert_child leaf value)) q
KeepsText-create leaf value p q =
    KeepsText-update (insert_child leaf value) (Grows-insert_child leaf value) IsPlace
      (KeepsText-insert_child leaf value) p q (λ r e. tt)

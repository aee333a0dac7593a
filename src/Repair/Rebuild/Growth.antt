-- ===== src/Repair/Rebuild/Growth.antt =====
-- What a change leaves in the document: every element that was at a place is still at that place.
use mathlib.Core.Option
use payment_ops.Prelude.{
  ℕ, zero, suc, ◌≡◌, refl, ap, ◌∙◌, sym, Bool, true, false, Option, none, some, List, [], ◌∷◌, ◌++◌,
  Text, text_eq, text_eq_sound, text_eq_comm, text_eq_refl, ◌>>=◌, arith, if◌then◌else◌, is_some,
  ◌==◌, ◌&&◌, leb,
}
use payment_ops.Xml.{Node, kids, local_name, is_named, named, with_text}
use payment_ops.Xml.Places.{
  Place, nth, walk, update_named, update, kids-with_kids, local_name-with_kids,
}
use payment_ops.Repair.Rebuild.{position, rank, insert, reorder, postal_address_order, insert_child}

same_name : (l a b : Text) → text_eq l a ≡ true → text_eq l b ≡ text_eq b a
same_name l a b h = ap (λ t. text_eq t b) (text_eq_sound l a h) ∙ text_eq_comm a b

module _ (f : Node → Node) (keep : (n : Node) → local_name (f n) ≡ local_name n) where
  -- The match of a name and number after another, or the same, was changed.
  pub nth-update_named :
      (m name : Text) (j k : ℕ) (ns : List Node)
      → nth j (named m (update_named name k f ns)) ≡ (
          if text_eq m name && (j == k)
          then Option.map f (nth j (named m ns))
          else nth j (named m ns))
  unfolding nth named update_named
  nth-update_named m name j k [] = ground arith
  nth-update_named m name zero zero (n ∷ ns) = ground (
    arith,
    keep n,
    same_name (local_name n) name m,
    same_name (local_name n) m name,
    text_eq_comm m name,
    nth-update_named m name zero zero ns,
  )
  nth-update_named m name (suc j) zero (n ∷ ns) = ground (
    arith,
    keep n,
    same_name (local_name n) name m,
    same_name (local_name n) m name,
    text_eq_comm m name,
    nth-update_named m name (suc j) zero ns,
    nth-update_named m name j zero ns,
  )
  nth-update_named m name zero (suc k) (n ∷ ns) = ground (
    arith,
    keep n,
    same_name (local_name n) name m,
    same_name (local_name n) m name,
    text_eq_comm m name,
    nth-update_named m name zero (suc k) ns,
    nth-update_named m name zero k ns,
  )
  nth-update_named m name (suc j) (suc k) (n ∷ ns) = ground (
    arith,
    keep n,
    same_name (local_name n) name m,
    same_name (local_name n) m name,
    text_eq_comm m name,
    nth-update_named m name (suc j) (suc k) ns,
    nth-update_named m name j (suc k) ns,
    nth-update_named m name (suc j) k ns,
    nth-update_named m name j k ns,
  )

same_rank : (m : Text) (n k : Node) → is_named m n ≡ true → is_named m k ≡ true → rank n ≡ rank k
same_rank m n k h g =
    ap (λ s. position s postal_address_order)
      (text_eq_sound (local_name n) m h ∙ sym (text_eq_sound (local_name k) m g))

leb_refl : (a b : ℕ) → a ≡ b → leb a b ≡ true
leb_refl a b e = ground arith

-- The sort keeps the children of a name in their order.
named-insert :
    (m : Text) (n : Node) (ns : List Node)
    → named m (insert n ns) ≡ (if is_named m n then n ∷ named m ns else named m ns)
unfolding named insert
named-insert m n [] = refl
named-insert m n (k ∷ ns) =
    ground (arith, same_rank m n k, leb_refl (rank n) (rank k), named-insert m n ns)

pub named-reorder : (m : Text) (ns : List Node) → named m (reorder ns) ≡ named m ns
unfolding reorder named
named-reorder m [] = refl
named-reorder m (n ∷ ns) = ground (arith, named-insert m n (reorder ns), named-reorder m ns)

nth-named-append :
    (m : Text) (j : ℕ) (ns ks : List Node)
    → is_some (nth j (named m ns)) ≡ true
    → nth j (named m (ns ++ ks)) ≡ nth j (named m ns)
unfolding nth named
nth-named-append m j [] ks h = cc
nth-named-append m zero (n ∷ ns) ks h = ground (arith, nth-named-append m zero ns ks)
nth-named-append m (suc j) (n ∷ ns) ks h =
    ground (arith, nth-named-append m j ns ks, nth-named-append m (suc j) ns ks)

-- The function keeps names, and each place of an element stays the place of an element.
pub record Grows (f : Node → Node) : Type 0 where
  pub name : (n : Node) → local_name (f n) ≡ local_name n
  pub place : (q : Place) (n : Node) → is_some (walk q n) ≡ true → is_some (walk q (f n)) ≡ true

is_some-bind :
    {A B : Type 0} (o : Option A) (f g : A → Option B)
    → ((a : A) → is_some (f a) ≡ true → is_some (g a) ≡ true)
    → is_some (o >>= f) ≡ true
    → is_some (o >>= g) ≡ true
is_some-bind none f g h e = e
is_some-bind (some a) f g h e = h a e

pub is_some-source :
    {A B : Type 0} (o : Option A) (f : A → Option B) → is_some (o >>= f) ≡ true → is_some o ≡ true
is_some-source none f e = e
is_some-source (some a) f e = refl

-- A child is changed where it is found, and the walk goes on below.
walk-chosen :
    (b : Bool) (f : Node → Node) (q : Place) (o : Option Node)
    → ((n : Node) → is_some (walk q n) ≡ true → is_some (walk q (f n)) ≡ true)
    → is_some (o >>= walk q) ≡ true
    → is_some ((if b then Option.map f o else o) >>= walk q) ≡ true
walk-chosen true f q none h e = e
walk-chosen true f q (some n) h e = h n e
walk-chosen false f q o h e = e

Grows-step :
    (f : Node → Node) (name : Text) (k : ℕ) (p : Place)
    → Grows (update p f)
    → Grows (update ((name, k) ∷ p) f)
unfolding update
Grows-step f name k p below = record { name = λ n. local_name-with_kids _ n; place = step }
  where
    step :
        (q : Place) (n : Node)
        → is_some (walk q n) ≡ true
        → is_some (walk q (update ((name, k) ∷ p) f n)) ≡ true
    step [] n h = unfold walk in refl
    step ((m, j) ∷ q) n h =
        unfold walk in
        unfold update in
        rw (kids-with_kids, nth-update_named (update p f) below.name m name j k (kids n))
          (walk-chosen (text_eq m name && (j == k)) (update p f) q (nth j (named m (kids n)))
            (below.place q) (unfold walk in h))

pub Grows-update : (f : Node → Node) → Grows f → (p : Place) → Grows (update p f)
unfolding update
Grows-update f g [] = g
Grows-update f g ((name, k) ∷ p) = Grows-step f name k p (Grows-update f g p)

-- Changing an element and going below it.
map-bind :
    (f : Node → Node) (p : Place) (o : Option Node)
    → ((n : Node) → walk p (update p f n) ≡ Option.map f (walk p n))
    → (Option.map (update p f) o >>= walk p) ≡ Option.map f (o >>= walk p)
map-bind f p none h = refl
map-bind f p (some n) h = h n

same_step : (s : Text) (k : ℕ) → (text_eq s s && (k == k)) ≡ true
same_step s k = ground (arith, text_eq_refl s)

-- The element at the place is the one that is changed.
pub walk-update :
    (f : Node → Node)
    → Grows f
    → (p : Place) (n : Node) → walk p (update p f n) ≡ Option.map f (walk p n)
unfolding walk update
walk-update f g [] n = refl
walk-update f g ((name, k) ∷ p) n =
    rw
      (
        kids-with_kids,
        nth-update_named (update p f) (Grows-update f g p).name name name k k (kids n),
        same_step name k,
      )
      (map-bind f p (nth k (named name (kids n))) (walk-update f g p))

-- The children stay as they are.
pub kids-with_text : (value : Option Text) (n : Node) → kids (with_text value n) ≡ kids n
kids-with_text value (Node.node tag attributes text ns) = refl

pub Grows-with_text : (value : Option Text) → Grows (with_text value)
unfolding walk local_name
Grows-with_text value = record { name = same; place = step }
  where
    same : (n : Node) → local_name (with_text value n) ≡ local_name n
    same (Node.node tag attributes text ns) = unfold local_name in refl

    step :
        (q : Place) (n : Node)
        → is_some (walk q n) ≡ true
        → is_some (walk q (with_text value n)) ≡ true
    step [] n h = unfold walk in refl
    step ((m, j) ∷ q) n h = unfold walk in rw (kids-with_text value n) (unfold walk in h)

-- A child of the parent as it was is still the child of its name and number.
pub nth-insert_child :
    (leaf : Text) (value : Option Text) (m : Text) (j : ℕ) (n : Node)
    → is_some (nth j (named m (kids n))) ≡ true
    → nth j (named m (kids (insert_child leaf value n))) ≡ nth j (named m (kids n))
unfolding insert_child
nth-insert_child leaf value m j n h =
    rw (kids-with_kids, named-reorder) (nth-named-append m j (kids n) _ h)

pub Grows-insert_child : (leaf : Text) (value : Option Text) → Grows (insert_child leaf value)
unfolding insert_child
Grows-insert_child leaf value = record { name = λ n. local_name-with_kids _ n; place = step }
  where
    step :
        (q : Place) (n : Node)
        → is_some (walk q n) ≡ true
        → is_some (walk q (insert_child leaf value n)) ≡ true
    step [] n h = unfold walk in refl
    step ((m, j) ∷ q) n h =
        unfold walk in
        rw
          (nth-insert_child leaf value m j n
            (is_some-source (nth j (named m (kids n))) (walk q) (unfold walk in h)))
          (unfold walk in h)

-- ===== src/Repair/Rebuild/Navigate.antt =====
-- Paths whose segments name places, and the navigation along them.
use mathlib.Core.Option
use mathlib.Core.Option.{some-injective}
use payment_ops.Prelude.{ℕ, ◌≡◌, refl, ap, Option, none, some, List, [], ◌∷◌, ◌++◌, Text, ◌>>=◌}
use payment_ops.Prelude.Int.{pos}
use payment_ops.Unicode.{Unicode}
use payment_ops.Xml.{Node, kids, named}
use payment_ops.Xml.Places.{Step, Place, nth, walk}
use payment_ops.Repair.Rebuild.{strip_index, index_of, pick, child_by_local, navigate_from, descend}

-- Segments that name the steps of a place: `Name` for the first child of the name, `Name[k]`.
pub data Spells (u : Unicode) : List Text → Place → Type 0 where
  done : Spells u [] []
  step :
      {s name : Text} {k : ℕ} {ss : List Text} {p : Place}
      → strip_index s ≡ name
      → index_of u s ≡ some (pos k)
      → Spells u ss p
      → Spells u (s ∷ ss) ((name, k) ∷ p)

map-const :
    (st : Step) (p : Place) (o : Option Node)
    → Option.map (λ r. st ∷ r) (Option.map (λ (m : Node). p) o)
      ≡ Option.map (λ (m : Node). st ∷ p) o
map-const st p none = refl
map-const st p (some n) = refl

descend-found :
    (st : Step) (p : Place) (go : Node → Option (Option Place)) (o : Option Node)
    → ((n : Node) → go n ≡ some (Option.map (λ (m : Node). p) (walk p n)))
    → descend go (Option.map (λ n. (st, n)) o)
      ≡ some (Option.map (λ (m : Node). st ∷ p) (o >>= walk p))
unfolding descend
descend-found st p go none h = refl
descend-found st p go (some n) h = rw (h n) (ap (λ t. some t) (map-const st p (walk p n)))

module _ (u : Unicode) where
  -- Navigation along segments that spell a place is the walk along that place: it finds the place
  -- exactly if there is an element.
  pub navigate_from-walk :
      {segs : List Text} {p : Place}
      → Spells u segs p
      → (n : Node) → navigate_from u n segs ≡ some (Option.map (λ m. p) (walk p n))
  unfolding navigate_from walk child_by_local pick
  navigate_from-walk done n = refl
  navigate_from-walk (step {s} {name} {k} {ss} {p} e i rest) n =
      rw (i, e)
        (descend-found (name, k) p (λ c. navigate_from u c ss) (nth k (named name (kids n)))
          (navigate_from-walk rest))

walk-bind :
    (p q r : Place) (o : Option Node)
    → ((n : Node) → walk r n ≡ (walk p n >>= walk q))
    → (o >>= walk r) ≡ (o >>= walk p >>= walk q)
walk-bind p q r none h = refl
walk-bind p q r (some n) h = h n

pub walk-append : (p q : Place) (n : Node) → walk (p ++ q) n ≡ (walk p n >>= walk q)
unfolding walk
walk-append [] q n = refl
walk-append ((name, k) ∷ p) q n =
    walk-bind p q (p ++ q) (nth k (named name (kids n))) (walk-append p q)

pub Spells-append :
    {u : Unicode} {ss ts : List Text} {p q : Place}
    → Spells u ss p
    → Spells u ts q
    → Spells u (ss ++ ts) (p ++ q)
Spells-append done t = t
Spells-append (step e i s) t = step e i (Spells-append s t)

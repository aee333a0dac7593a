-- ===== src/Xml/Places.antt =====
-- The places of the elements of a document: what an lxml reference stands for. A place names at each
-- level the children and counts those of that name.
use payment_ops.Prelude.{
  ℕ, zero, suc, ◌≡◌, refl, ap, Option, none, some, List, [], ◌∷◌, Text, ◌>>=◌, if◌then◌else◌,
}
use payment_ops.Xml.{Node, to_list, of_list, kids, with_kids, local_name, is_named, named, text_of}

abbrev pub Step : Type 0
Step = Text × ℕ

abbrev pub Place : Type 0
Place = List Step

unfoldable pub nth : ℕ → List Node → Option Node
nth k [] = none
nth zero (n ∷ ns) = some n
nth (suc k) (n ∷ ns) = nth k ns

-- The element at a place.
unfoldable pub walk : Place → Node → Option Node
walk [] n = some n
walk ((name, k) ∷ rest) n = nth k (named name (kids n)) >>= walk rest

-- The child of a name and number is changed in place.
unfoldable pub update_named : Text → ℕ → (Node → Node) → List Node → List Node
update_named name k f [] = []
update_named name zero f (n ∷ ns) =
    let rest = update_named name zero f ns in if is_named name n then f n ∷ ns else n ∷ rest
update_named name (suc k) f (n ∷ ns) =
    let here = update_named name k f ns in
    let rest = update_named name (suc k) f ns in if is_named name n then n ∷ here else n ∷ rest

-- The element at a place is changed in place.
unfoldable pub update : Place → (Node → Node) → Node → Node
update [] f n = f n
update ((name, k) ∷ rest) f n = with_kids (update_named name k (update rest f) (kids n)) n

pub kids-with_kids : (ns : List Node) (n : Node) → kids (with_kids ns n) ≡ ns
kids-with_kids ns (Node.node tag attributes text old) = to_list-of_list ns
  where
    to_list-of_list : (ns : List Node) → to_list (of_list ns) ≡ ns
    to_list-of_list [] = refl
    to_list-of_list (n ∷ ns) = ap (λ r. n ∷ r) (to_list-of_list ns)

pub local_name-with_kids : (ns : List Node) (n : Node) → local_name (with_kids ns n) ≡ local_name n
unfolding local_name
local_name-with_kids ns (Node.node tag attributes text old) = refl

pub text_of-with_kids : (ns : List Node) (n : Node) → text_of (with_kids ns n) ≡ text_of n
text_of-with_kids ns (Node.node tag attributes text old) = refl

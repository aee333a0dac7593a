-- ===== src/Prelude/Lists.antt =====
-- Lists measured by native numbers, under the library's names, and Boolean searches that run.
use Prim.Native.Nat.{ℕ, suc, ◌+◌}
use mathlib.Core.Path.{◌≡◌, refl, sym, subst}
use mathlib.Core.Bool.{Bool, true, false, ◌&&◌, ◌||◌}
use mathlib.Core.List.{List, [], ◌∷◌, ◌++◌, map, Memᴰ}
use native.Mathlib.Omega.{arith}

module _ {ℓ} {A : Type ℓ} where
  abbrev pub length : List A → ℕ
  length [] = 0
  length (x ∷ xs) = suc (length xs)

  pub length-append : (xs ys : List A) → length (xs ++ ys) ≡ length xs + length ys
  length-append [] ys = omega arith
  length-append (x ∷ xs) ys = omega (arith, length-append xs ys)

  -- `any(p(x) for x in xs)`
  abbrev pub any : (A → Bool) → List A → Bool
  any p [] = false
  any p (x ∷ xs) = p x || any p xs

  -- `all(p(x) for x in xs)`
  abbrev pub all : (A → Bool) → List A → Bool
  all p [] = true
  all p (x ∷ xs) = p x && all p xs

  pub any-append : (p : A → Bool) (xs ys : List A) → any p (xs ++ ys) ≡ (any p xs || any p ys)
  any-append p [] ys = refl
  any-append p (x ∷ xs) ys = ground (arith, any-append p xs ys)

  -- Truth of a list in Python.
  abbrev pub nonempty : List A → Bool
  nonempty [] = false
  nonempty (x ∷ xs) = true

  pub nonempty-append : (xs ys : List A) → nonempty (xs ++ ys) ≡ (nonempty xs || nonempty ys)
  nonempty-append [] ys = refl
  nonempty-append (x ∷ xs) ys = refl

  -- A predicate of every member, which computes to a tuple.
  abbrev pub All {κ} : (A → Type κ) → List A → Type κ
  All P [] = Unit
  All P (x ∷ xs) = P x × All P xs

  pub All-append {κ} : (P : A → Type κ) (xs ys : List A) → All P xs → All P ys → All P (xs ++ ys)
  All-append P [] ys hx hy = hy
  All-append P (x ∷ xs) ys hx hy = (hx.0, All-append P xs ys hx.1 hy)

module _ {ℓ κ} {A : Type ℓ} (P : A → Type κ) where
  pub All-Mem : (xs : List A) (x : A) → All P xs → Memᴰ x xs → P x
  All-Mem [] x h m = elim m [ ]
  All-Mem (y ∷ xs) x h (Memᴰ.head e) = subst P (sym e) h.0
  All-Mem (y ∷ xs) x h (Memᴰ.tail m) = All-Mem xs x h.1 m

  pub All-map_hyp {μ} : {Q : A → Type μ} (xs : List A) → ((x : A) → P x → Q x) → All P xs → All Q xs
  All-map_hyp [] f h = tt
  All-map_hyp (x ∷ xs) f h = (f x h.0, All-map_hyp xs f h.1)

module _ {ℓ κ} {A : Type ℓ} {B : Type κ} where
  pub any-map : (p : B → Bool) (g : A → B) (xs : List A) → any p (map g xs) ≡ any (λ x. p (g x)) xs
  any-map p g [] = refl
  any-map p g (x ∷ xs) = ground (arith, any-map p g xs)

  pub all-map : (p : B → Bool) (g : A → B) (xs : List A) → all p (map g xs) ≡ all (λ x. p (g x)) xs
  all-map p g [] = refl
  all-map p g (x ∷ xs) = ground (arith, all-map p g xs)

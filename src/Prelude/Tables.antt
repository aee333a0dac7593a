-- ===== src/Prelude/Tables.antt =====
-- Rows of a table as a list: look-up of the first that fits, and an update of those that fit.
use mathlib.Core.Path.{◌≡◌, refl}
use mathlib.Core.Bool.{Bool, true}
use mathlib.Core.Option.{Option, none, some}
use mathlib.Core.List.{List, [], ◌∷◌, ◌++◌}
use native.Mathlib.Omega.{arith}
use payment_ops.Prelude.Tests.{if◌then◌else◌}
use payment_ops.Prelude.Lists.{All, length}

module _ {ℓ} {A : Type ℓ} where
  -- `select(T).where(p)`, then `scalar_one_or_none`
  unfoldable pub find : (A → Bool) → List A → Option A
  find p [] = none
  find p (x ∷ xs) = if p x then some x else find p xs

  -- The rows that fit are changed in place.
  unfoldable pub update_where : (A → Bool) → (A → A) → List A → List A
  update_where p f [] = []
  update_where p f (x ∷ xs) = (if p x then f x else x) ∷ update_where p f xs

  pub All-update_where {κ} :
      (P : A → Type κ) (p : A → Bool) (f : A → A) (xs : List A)
      → ((x : A) → P x → P (f x))
      → All P xs
      → All P (update_where p f xs)
  unfolding update_where
  All-update_where P p f [] keep h = h
  All-update_where P p f (x ∷ xs) keep h =
      ground (arith, All-update_where P p f xs keep h.1, keep x)

  pub length-update_where :
      (p : A → Bool) (f : A → A) (xs : List A) → length (update_where p f xs) ≡ length xs
  unfolding update_where
  length-update_where p f [] = refl
  length-update_where p f (x ∷ xs) = ground (arith, length-update_where p f xs)

  -- What is found fits.
  pub find_sound : (p : A → Bool) (xs : List A) (x : A) → find p xs ≡ some x → p x ≡ true
  unfolding find
  find_sound p [] x h = cc
  find_sound p (y ∷ xs) x h = ground (arith, find_sound p xs x)

  pub All-find {κ} :
      (P : A → Type κ) (p : A → Bool) (xs : List A) (x : A) → All P xs → find p xs ≡ some x → P x
  unfolding find
  All-find P p [] x all h = cc
  All-find P p (y ∷ xs) x all h = ground (arith, All-find P p xs x all.1)

  -- An update that does not touch what is tested keeps what is found, but for the update.
  pub find-update_where :
      (q p : A → Bool) (f : A → A) (xs : List A)
      → ((x : A) → q (f x) ≡ q x)
      → find q (update_where p f xs)
        ≡ elim (find q xs) [ none ↦ none | some x ↦ some (if p x then f x else x) ]
  unfolding find update_where
  find-update_where q p f [] same = refl
  find-update_where q p f (x ∷ xs) same = ground (arith, find-update_where q p f xs same, same x)

  -- A row added at the end is found where no earlier row fits.
  pub find-append :
      (q : A → Bool) (xs : List A) (y : A)
      → find q xs ≡ none
      → q y ≡ true
      → find q (xs ++ y ∷ []) ≡ some y
  unfolding find
  find-append q [] y h e = ground arith
  find-append q (x ∷ xs) y h e = ground (arith, find-append q xs y)

-- ===== src/Prelude/Lists/Rows.antt =====
-- What an UPDATE does to the searches and counts that follow it.
use Prim.Native.Nat.{◌+◌, ◌≤◌, ◌<◌}
use mathlib.Core.Path.{◌≡◌, refl}
use mathlib.Core.Bool.{Bool, true, false}
use mathlib.Core.Option.{none, some}
use mathlib.Core.List.{List, [], ◌∷◌}
use native.Mathlib.Omega.{arith}
use lexicode.Prelude.Tests.{if◌then◌else◌}
use lexicode.Prelude.Lists.{first_where, count_where, update_where, All, length}

module _ {ℓ} {A : Type ℓ} (R : A → A → Type 0) where
  -- Two tables with the same rows in the same order, each row related to its successor.
  abbrev pub Rowwise : List A → List A → Type 0
  Rowwise [] [] = Unit
  Rowwise (x ∷ xs) (y ∷ ys) = R x y × Rowwise xs ys
  Rowwise _ _ = ⊥

  pub Rowwise-refl : ((x : A) → R x x) → (xs : List A) → Rowwise xs xs
  Rowwise-refl r [] = tt
  Rowwise-refl r (x ∷ xs) = (r x, Rowwise-refl r xs)

  pub Rowwise-trans :
      ((x y z : A) → R x y → R y z → R x z)
      → (xs ys zs : List A) → Rowwise xs ys
      → Rowwise ys zs
      → Rowwise xs zs
  Rowwise-trans t [] [] [] h k = tt
  Rowwise-trans t (x ∷ xs) (y ∷ ys) (z ∷ zs) h k =
      (t x y z h.0 k.0, Rowwise-trans t xs ys zs h.1 k.1)
  Rowwise-trans t [] [] (z ∷ zs) h k = absurd k
  Rowwise-trans t [] (y ∷ ys) zs h k = absurd h
  Rowwise-trans t (x ∷ xs) [] zs h k = absurd h
  Rowwise-trans t (x ∷ xs) (y ∷ ys) [] h k = absurd k

  pub update_where-Rowwise :
      (p : A → Bool) (f : A → A)
      → ((x : A) → p x ≡ true → R x (f x))
      → ((x : A) → R x x)
      → (xs : List A) → Rowwise xs (update_where p f xs)
  unfolding update_where
  update_where-Rowwise p f s r [] = tt
  update_where-Rowwise p f s r (x ∷ xs) = (row (p x) refl, update_where-Rowwise p f s r xs)
    where
      row : (b : Bool) → p x ≡ b → R x (if b then f x else x)
      row true e = s x e
      row false e = r x

module _ {ℓ} {A : Type ℓ} where
  -- An update that keeps what a search looks for: the search finds the row it found before, updated.
  pub first_where-update :
      (p q : A → Bool) (f : A → A)
      → ((x : A) → p (f x) ≡ p x)
      → (xs : List A) {x : A} → first_where p xs ≡ some x
      → first_where p (update_where q f xs) ≡ some (if q x then f x else x)
  unfolding first_where update_where
  first_where-update p q f keep [] h = ground arith
  first_where-update p q f keep (y ∷ xs) {x} h =
      ground (arith, keep y, first_where-update p q f keep xs {x = x})

  pub first_where-update_none :
      (p q : A → Bool) (f : A → A)
      → ((x : A) → p (f x) ≡ p x)
      → (xs : List A) → first_where p xs ≡ none
      → first_where p (update_where q f xs) ≡ none
  unfolding first_where update_where
  first_where-update_none p q f keep [] h = refl
  first_where-update_none p q f keep (y ∷ xs) h =
      ground (arith, keep y, first_where-update_none p q f keep xs)

  pub length-update_where :
      (p : A → Bool) (f : A → A) (xs : List A) → length (update_where p f xs) ≡ length xs
  unfolding update_where
  length-update_where p f [] = refl
  length-update_where p f (x ∷ xs) = ground (arith, length-update_where p f xs)

  -- A second update of the same rows works on the first one's result.
  pub update_where-update_where :
      (p : A → Bool) (f g : A → A)
      → ((x : A) → p (f x) ≡ p x)
      → (xs : List A) → update_where p g (update_where p f xs) ≡ update_where p (λ x. g (f x)) xs
  unfolding update_where
  update_where-update_where p f g keep [] = refl
  update_where-update_where p f g keep (x ∷ xs) =
      ground (arith, keep x, update_where-update_where p f g keep xs)

  pub count_where-sub :
      (p q : A → Bool)
      → ((y : A) → q y ≡ true → p y ≡ true)
      → (xs : List A) → count_where q xs ≤ count_where p xs
  unfolding count_where
  count_where-sub p q sub [] = omega arith
  count_where-sub p q sub (x ∷ xs) = ground (arith, sub x, count_where-sub p q sub xs)

  -- A test that passes on some row, and only on rows of one kind, passes on the first of that kind,
  -- if there is at most one.
  pub first_where_unique :
      (p q : A → Bool) (xs : List A) {x : A}
      → ((y : A) → q y ≡ true → p y ≡ true)
      → count_where p xs ≤ 1
      → 0 < count_where q xs
      → first_where p xs ≡ some x
      → q x ≡ true
  unfolding first_where count_where
  first_where_unique p q [] sub one pos h = ground arith
  first_where_unique p q (y ∷ xs) {x} sub one pos h =
      ground (arith, sub y, first_where_unique p q xs {x = x}, count_where-sub p q sub xs)

  pub count_where-update :
      (p q : A → Bool) (f : A → A)
      → ((x : A) → p (f x) ≡ p x)
      → (xs : List A) → count_where p (update_where q f xs) ≡ count_where p xs
  unfolding count_where update_where
  count_where-update p q f keep [] = refl
  count_where-update p q f keep (y ∷ xs) = ground (arith, keep y, count_where-update p q f keep xs)

  pub All-update :
      (P : A → Type 0) (p : A → Bool) (f : A → A)
      → ((x : A) → P x → P (f x))
      → (xs : List A) → All P xs
      → All P (update_where p f xs)
  unfolding update_where
  All-update P p f keep [] h = tt
  All-update P p f keep (x ∷ xs) h = (row (p x), All-update P p f keep xs h.1)
    where
      row : (b : Bool) → P (if b then f x else x)
      row true = keep x h.0
      row false = h.0

  -- An update adds at most the rows that it hits to a count.
  pub count_where-update_add :
      (p q : A → Bool) (f : A → A) (xs : List A)
      → count_where p (update_where q f xs) ≤ count_where p xs + count_where q xs
  unfolding count_where update_where
  count_where-update_add p q f [] = omega arith
  count_where-update_add p q f (x ∷ xs) = ground (arith, count_where-update_add p q f xs)

  -- An update whose rows do not count makes no count larger.
  pub count_where-update_drop :
      (p q : A → Bool) (f : A → A)
      → ((x : A) → p (f x) ≡ false)
      → (xs : List A) → count_where p (update_where q f xs) ≤ count_where p xs
  unfolding count_where update_where
  count_where-update_drop p q f out [] = omega arith
  count_where-update_drop p q f out (x ∷ xs) =
      ground (arith, out x, count_where-update_drop p q f out xs)

-- ===== src/RouteExecutor/Splice.antt =====
-- What Python's `insert`, `del` and assignment do to the length of a list and to a part of it.
use rill_xray_agent.Prelude.{
  some-injective, ℕ, zero, suc, ◌≤◌, ◌≡◌, refl, Bool, false, some, List, [], ◌∷◌, arith, length,
  keep, take, map, ap, sym, ◌∙◌, get_elem?, insert_at, delete_at, replace_at,
}

module _ {ℓ} {A : Type ℓ} (p : A → Bool) where
  pub keep-insert_at :
      (n : ℕ) (y : A) (xs : List A) → p y ≡ false → keep p (insert_at n y xs) ≡ keep p xs
  keep-insert_at zero y xs h = ground arith
  keep-insert_at (suc n) y [] h = ground arith
  keep-insert_at (suc n) y (x ∷ xs) h = ground (arith, keep-insert_at n y xs h)

  pub keep-delete_at :
      (n : ℕ) (y : A) (xs : List A)
      → get_elem? xs n ≡ some y
      → p y ≡ false
      → keep p (delete_at n xs) ≡ keep p xs
  keep-delete_at n y [] e h = refl
  keep-delete_at zero y (x ∷ xs) e h = ground arith
  keep-delete_at (suc n) y (x ∷ xs) e h = ground (arith, keep-delete_at n y xs e h)

  pub keep-replace_at :
      (n : ℕ) (y z : A) (xs : List A)
      → get_elem? xs n ≡ some y
      → p y ≡ false
      → p z ≡ false
      → keep p (replace_at n z xs) ≡ keep p xs
  keep-replace_at n y z [] e h g = refl
  keep-replace_at zero y z (x ∷ xs) e h g = ground arith
  keep-replace_at (suc n) y z (x ∷ xs) e h g = ground (arith, keep-replace_at n y z xs e h g)

module _ {ℓ} {A : Type ℓ} where
  pub length-insert_at : (n : ℕ) (y : A) (xs : List A) → length (insert_at n y xs) ≡ suc (length xs)
  length-insert_at zero y xs = refl
  length-insert_at (suc n) y [] = refl
  length-insert_at (suc n) y (x ∷ xs) = omega (arith, length-insert_at n y xs)

  pub length-delete_at :
      (n : ℕ) (y : A) (xs : List A)
      → get_elem? xs n ≡ some y
      → suc (length (delete_at n xs)) ≡ length xs
  length-delete_at n y [] e = ground arith
  length-delete_at zero y (x ∷ xs) e = refl
  length-delete_at (suc n) y (x ∷ xs) e = omega (arith, length-delete_at n y xs e)

  pub length-replace_at : (n : ℕ) (y : A) (xs : List A) → length (replace_at n y xs) ≡ length xs
  length-replace_at n y [] = refl
  length-replace_at zero y (x ∷ xs) = refl
  length-replace_at (suc n) y (x ∷ xs) = omega (arith, length-replace_at n y xs)

module _ {ℓ κ} {A : Type ℓ} {B : Type κ} (f : A → B) where
  -- An insertion at `n` leaves what stands before `n`.
  pub take-insert_at :
      (n : ℕ) (y : A) (xs : List A)
      → n ≤ length xs
      → map f (take n (insert_at n y xs)) ≡ map f (take n xs)
  take-insert_at zero y xs h = refl
  take-insert_at (suc n) y [] h = absurd (omega arith)
  take-insert_at (suc n) y (x ∷ xs) h = ap (λ ys. f x ∷ ys) (take-insert_at n y xs (omega arith))

  -- Nothing is seen of a replacement that looks the same.
  pub take-replace_at :
      (n k : ℕ) (y z : A) (xs : List A)
      → get_elem? xs k ≡ some y
      → f z ≡ f y
      → map f (take n (replace_at k z xs)) ≡ map f (take n xs)
  take-replace_at zero k y z xs e h = refl
  take-replace_at (suc n) k y z [] e h = refl
  take-replace_at (suc n) zero y z (x ∷ xs) e h =
      ap (λ b. b ∷ map f (take n xs)) (h ∙ ap f (sym (some-injective e)))
  take-replace_at (suc n) (suc k) y z (x ∷ xs) e h =
      ap (λ ys. f x ∷ ys) (take-replace_at n k y z xs e h)

  pub take-length : (xs : List A) → map f (take (length xs) xs) ≡ map f xs
  take-length [] = refl
  take-length (x ∷ xs) = ap (λ ys. f x ∷ ys) (take-length xs)

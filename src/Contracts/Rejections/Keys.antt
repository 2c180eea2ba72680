-- ===== src/Contracts/Rejections/Keys.antt =====
-- worker-acceptance-ledger.ts: entries by key, where one is replaced or added.
use omp_lazy.Prelude.{
  ◌≡◌, refl, String, Bool, true, false, List, [], ◌∷◌, ◌++◌, none, some, map, all, any, find,
  if◌then◌else◌, ◌==◌, string_eq, arith, eq_iff,
}
use omp_lazy.State.Codec.{no_duplicates}

module _ {ℓ} {A : Type ℓ} where
  pub find-all :
      (p q : A → Bool) (xs : List A) (x : A) → all p xs ≡ true → find q xs ≡ some x → p x ≡ true
  find-all p q [] x h f = cc
  find-all p q (y ∷ xs) x h f = ground (arith, find-all p q xs x)

module _ {ℓ} {A : Type ℓ} (key : A → String) (k : String) (a : A) (same_key : key a ≡ k) where
  abbrev pub replace : A → A
  replace x = if key x == k then a else x

  pub find-added :
      (xs : List A)
      → find (λ x. key x == k) xs ≡ none
      → find (λ x. key x == k) (xs ++ a ∷ []) ≡ some a
  find-added [] n = ground (arith, same_key, eq_iff (key a) k)
  find-added (x ∷ xs) n = ground (arith, find-added xs)

  pub find-replaced :
      (xs : List A) (x : A)
      → find (λ x. key x == k) xs ≡ some x
      → find (λ x. key x == k) (map replace xs) ≡ some a
  find-replaced [] x f = cc
  find-replaced (y ∷ xs) x f = ground (arith, find-replaced xs x, same_key, eq_iff (key a) k)

  pub find-added_other :
      (j : String) (xs : List A)
      → (k == j) ≡ false
      → find (λ x. key x == j) (xs ++ a ∷ []) ≡ find (λ x. key x == j) xs
  find-added_other j [] n = ground (arith, same_key)
  find-added_other j (x ∷ xs) n = ground (arith, find-added_other j xs n)

  pub find-replaced_other :
      (j : String) (xs : List A)
      → (k == j) ≡ false
      → find (λ x. key x == j) (map replace xs) ≡ find (λ x. key x == j) xs
  find-replaced_other j [] n = refl
  find-replaced_other j (y ∷ xs) n =
      ground (arith, find-replaced_other j xs n, same_key, eq_iff (key y) k)

  pub map-replaced : (xs : List A) → map key (map replace xs) ≡ map key xs
  map-replaced [] = refl
  map-replaced (y ∷ xs) = ground (arith, map-replaced xs, same_key, eq_iff (key y) k)

  pub all-replaced :
      (p : A → Bool) (xs : List A) → all p xs ≡ true → p a ≡ true → all p (map replace xs) ≡ true
  all-replaced p [] h pa = refl
  all-replaced p (y ∷ xs) h pa = ground (arith, all-replaced p xs)

  pub all-added :
      (p : A → Bool) (xs : List A) → all p xs ≡ true → p a ≡ true → all p (xs ++ a ∷ []) ≡ true
  all-added p [] h pa = ground arith
  all-added p (y ∷ xs) h pa = ground (arith, all-added p xs)

  any-added :
      (j : String) (xs : List A)
      → (k == j) ≡ false
      → any (λ y. y == j) (map key xs) ≡ false
      → any (λ y. y == j) (map key (xs ++ a ∷ [])) ≡ false
  any-added j [] n h = ground (arith, same_key)
  any-added j (y ∷ xs) n h = ground (arith, any-added j xs)

  pub no_duplicates-added :
      (xs : List A)
      → find (λ x. key x == k) xs ≡ none
      → no_duplicates (map key xs) ≡ true
      → no_duplicates (map key (xs ++ a ∷ [])) ≡ true
  no_duplicates-added [] f h = refl
  no_duplicates-added (y ∷ xs) f h =
      ground
        (arith, any-added (key y) xs, no_duplicates-added xs, eq_iff (key y) k, eq_iff k (key y))

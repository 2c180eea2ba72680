-- ===== src/Contracts/PacketCompiler/Sorting.antt =====
-- task-packet-canonical.ts: the sort of values by a text.
use omp_lazy.Prelude.{
  ℕ, String, ◌≡◌, refl, ap, ◌∙◌, Bool, true, false, ◌&&◌, not, List, [], ◌∷◌, map, All, nat_eq,
  nat_beq_iff, arith, inl, inr, Bool-cases,
}
use omp_lazy.Contracts.PacketCompiler.{
  PacketHost, codes_ltb, ordinal_ltb, sorted_unique_strings, insert_by, sort_by,
}

codes_ltb-asym : (xs ys : List ℕ) → codes_ltb xs ys ≡ true → codes_ltb ys xs ≡ false
codes_ltb-asym [] [] e = refl
codes_ltb-asym [] (y ∷ ys) e = refl
codes_ltb-asym (x ∷ xs) [] e = cc
codes_ltb-asym (x ∷ xs) (y ∷ ys) e =
    ground (arith, codes_ltb-asym xs ys, nat_beq_iff x y, nat_beq_iff y x)

module _ {ℓ} {A : Type ℓ} where
  pub map-fixed : (f : A → A) (xs : List A) → All (λ x. f x ≡ x) xs → map f xs ≡ xs
  map-fixed f [] h = refl
  map-fixed f (x ∷ xs) (hx, h) = cc (hx, map-fixed f xs h)

  pub All-map : (f : A → A) (P : A → Type 0) (xs : List A) → ((x : A) → P (f x)) → All P (map f xs)
  All-map f P [] h = tt
  All-map f P (x ∷ xs) h = (h x, All-map f P xs h)

  pub All-map_from :
      (f : A → A) (P : A → Type 0) (xs : List A) → All (λ x. P (f x)) xs → All P (map f xs)
  All-map_from f P [] h = tt
  All-map_from f P (x ∷ xs) (hx, h) = (hx, All-map_from f P xs h)

module _ {ℓ} {A : Type ℓ} (host : PacketHost) (key : A → String) where
  pub All-insert_by :
      (P : A → Type ℓ) (x : A) (xs : List A) → P x → All P xs → All P (insert_by host key x xs)
  All-insert_by P x [] hx h = (hx, tt)
  All-insert_by P x (y ∷ ys) hx (hy, h) = elim (Bool-cases (ordinal_ltb host (key y) (key x))) [
    | inl b ↦ (let rest = All-insert_by P x ys hx h in rw b (hy, rest))
    | inr b ↦ rw b (hx, (hy, h))
  ]

  pub All-sort_by : (P : A → Type ℓ) (xs : List A) → All P xs → All P (sort_by host key xs)
  All-sort_by P [] h = tt
  All-sort_by P (x ∷ xs) (hx, h) = All-insert_by P x (sort_by host key xs) hx (All-sort_by P xs h)

  -- No value comes before one that it is less than.
  abbrev pub in_order : List A → Bool
  in_order [] = true
  in_order (x ∷ []) = true
  in_order (x ∷ y ∷ zs) = not (ordinal_ltb host (key y) (key x)) && in_order (y ∷ zs)

  pub sort_by-in_order : (xs : List A) → in_order xs ≡ true → sort_by host key xs ≡ xs
  sort_by-in_order [] h = refl
  sort_by-in_order (x ∷ []) h = refl
  sort_by-in_order (x ∷ y ∷ zs) h =
      let rest = sort_by-in_order (y ∷ zs) (ground (arith, h)) in
      let before : ordinal_ltb host (key y) (key x) ≡ false = ground (arith, h) in
      ap (insert_by host key x) rest ∙ rw before refl

  insert_by-in_order :
      (x : A) (xs : List A) → in_order xs ≡ true → in_order (insert_by host key x xs) ≡ true
  insert_by-in_order x [] h = refl
  insert_by-in_order x (y ∷ []) h =
      ground (arith, codes_ltb-asym (host.char_codes (key y)) (host.char_codes (key x)))
  insert_by-in_order x (y ∷ z ∷ zs) h = ground (
    arith,
    h,
    insert_by-in_order x (z ∷ zs),
    codes_ltb-asym (host.char_codes (key y)) (host.char_codes (key x)),
  )

  pub in_order-sort_by : (xs : List A) → in_order (sort_by host key xs) ≡ true
  in_order-sort_by [] = refl
  in_order-sort_by (x ∷ xs) = insert_by-in_order x (sort_by host key xs) (in_order-sort_by xs)

  pub in_order-map :
      (xs : List A) → sorted_unique_strings host (map key xs) ≡ true → in_order xs ≡ true
  in_order-map [] h = refl
  in_order-map (x ∷ []) h = refl
  in_order-map (x ∷ y ∷ zs) h = ground (
    arith,
    in_order-map (y ∷ zs),
    codes_ltb-asym (host.char_codes (key x)) (host.char_codes (key y)),
  )

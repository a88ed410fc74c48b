-- ===== src/Ui/Sublist.antt =====
-- Lists whose elements stand in another list in the same order.
use sopdet.Prelude.{
  ℕ, zero, suc, ◌+◌, ◌-◌, ◌≤◌, ◌≡◌, refl, ap, sym, ◌∙◌, List, [], ◌∷◌, ◌++◌, length, take, drop,
  length-append, arith,
}

module _ {ℓ} {A : Type ℓ} where
  pub data Sublist : List A → List A → Type ℓ where
    done : Sublist [] []
    skip : {x : A} {xs ys : List A} → Sublist xs ys → Sublist xs (x ∷ ys)
    both : {x : A} {xs ys : List A} → Sublist xs ys → Sublist (x ∷ xs) (x ∷ ys)

  pub Sublist_none : (ys : List A) → Sublist [] ys
  Sublist_none [] = done
  Sublist_none (y ∷ ys) = skip (Sublist_none ys)

  pub Sublist_all : (ys : List A) → Sublist ys ys
  Sublist_all [] = done
  Sublist_all (y ∷ ys) = both (Sublist_all ys)

  pub Sublist-snoc :
      {xs ys : List A} (e : A) → Sublist xs ys → Sublist (xs ++ (e ∷ [])) (ys ++ (e ∷ []))
  Sublist-snoc e done = both done
  Sublist-snoc e (skip s) = skip (Sublist-snoc e s)
  Sublist-snoc e (both s) = both (Sublist-snoc e s)

  pub Sublist_more : (e : A) (xs : List A) → Sublist xs (xs ++ (e ∷ []))
  Sublist_more e [] = skip done
  Sublist_more e (x ∷ xs) = both (Sublist_more e xs)

  pub Sublist_trans :
      {ys zs : List A} → Sublist ys zs → {xs : List A} → Sublist xs ys → Sublist xs zs
  Sublist_trans (skip t) s = skip (Sublist_trans t s)
  Sublist_trans done s = s
  Sublist_trans (both t) (skip s) = skip (Sublist_trans t s)
  Sublist_trans (both t) (both s) = both (Sublist_trans t s)

  pub Sublist-drop : (n : ℕ) (xs : List A) → Sublist (drop n xs) xs
  Sublist-drop zero xs = Sublist_all xs
  Sublist-drop (suc n) [] = done
  Sublist-drop (suc n) (x ∷ xs) = skip (Sublist-drop n xs)

  pub Sublist-take : (n : ℕ) (xs : List A) → Sublist (take n xs) xs
  Sublist-take zero xs = Sublist_none xs
  Sublist-take (suc n) [] = done
  Sublist-take (suc n) (x ∷ xs) = both (Sublist-take n xs)

  pub Sublist-append :
      (zs : List A) {xs ys : List A} → Sublist xs ys → Sublist (zs ++ xs) (zs ++ ys)
  Sublist-append [] s = s
  Sublist-append (z ∷ zs) s = both (Sublist-append zs s)

  -- The last `n` elements.
  abbrev pub last : ℕ → List A → List A
  last n xs = drop (length xs - n) xs

  drop_none : (n : ℕ) → drop {A = A} n [] ≡ []
  drop_none zero = refl
  drop_none (suc n) = refl

  drop-drop : (m n : ℕ) (xs : List A) → drop m (drop n xs) ≡ drop (n + m) xs
  drop-drop m zero xs = ap (λ k. drop k xs) (omega arith)
  drop-drop m (suc n) [] = drop_none m ∙ sym (drop_none (suc n + m))
  drop-drop m (suc n) (x ∷ xs) =
      drop-drop m n xs ∙ ap (λ k. drop k (x ∷ xs)) {x = suc (n + m)} {y = suc n + m} (omega arith)

  drop-append : (n : ℕ) (xs ys : List A) → n ≤ length xs → drop n (xs ++ ys) ≡ drop n xs ++ ys
  drop-append zero xs ys h = refl
  drop-append (suc n) [] ys h = absurd (omega arith)
  drop-append (suc n) (x ∷ xs) ys h = drop-append n xs ys (omega arith)

  pub length-drop : (n : ℕ) (xs : List A) → length (drop n xs) ≡ length xs - n
  length-drop zero xs = omega arith
  length-drop (suc n) [] = omega arith
  length-drop (suc n) (x ∷ xs) = omega (arith, length-drop n xs)

  -- The last elements of a list and one more are found without the elements before them.
  pub last-snoc :
      (n : ℕ) (xs : List A) (e : A) → last n (last n xs ++ (e ∷ [])) ≡ last n (xs ++ (e ∷ []))
  last-snoc n xs e =
      let k = length xs - n in
      let zs = xs ++ (e ∷ []) in
      let longer = length-append xs (e ∷ []) in
      let left = length-drop k zs in
      ap (last n) (sym (drop-append k xs (e ∷ []) (omega arith)))
      ∙ drop-drop (length (drop k zs) - n) k zs
      ∙ ap (λ i. drop i zs) (omega (arith, longer, left))

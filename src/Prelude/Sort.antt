-- ===== src/Prelude/Sort.antt =====
-- `sort.Strings`, and that its result depends only on which strings there are.
use Prim.Native.String.{String}
use mathlib.Core.Path.{◌≡◌, refl, ◌∙◌, sym}
use mathlib.Core.Bool.{true}
use mathlib.Core.List.{List, [], ◌∷◌, Perm, Permᴰ}
use mathlib.Core.List.Perm
use mathlib.Core.Logic.{inl, inr, ∥∥₁_elim}
use native.Mathlib.Omega.{arith}
use text.Mathlib.TextEquality.{IsScalar-prop}
use sopdet.Prelude.Tests.{if◌then◌else◌, Bool-cases}
use sopdet.Prelude.Lists.{All, Distinct}
use mathlib.Core.Logic.{◌≢◌}
use sopdet.Prelude.Text.{le_text, le_text_total, le_text_antisymm, le_text_trans}

-- One more string in its place.
insert_text : String → List String → List String
insert_text s [] = s ∷ []
insert_text s (t ∷ ts) = let rest = insert_text s ts in if le_text s t then s ∷ t ∷ ts else t ∷ rest

unfoldable pub sort_texts : List String → List String
unfolding insert_text
sort_texts [] = []
sort_texts (s ∷ ss) = insert_text s (sort_texts ss)

insert_text_comm :
    (s t : String) (l : List String)
    → insert_text s (insert_text t l) ≡ insert_text t (insert_text s l)
unfolding insert_text
insert_text_comm s t [] = ground (arith, le_text_total s t, le_text_total t s, le_text_antisymm s t)
insert_text_comm s t (u ∷ l) = ground (
  arith,
  le_text_total s t,
  le_text_total t s,
  le_text_antisymm s t,
  le_text_total s u,
  le_text_total t u,
  le_text_trans s t u,
  le_text_trans t s u,
  insert_text_comm s t l,
)

sort_texts-permᴰ : {xs ys : List String} → Permᴰ xs ys → sort_texts xs ≡ sort_texts ys
unfolding sort_texts
sort_texts-permᴰ Permᴰ.nil = refl
sort_texts-permᴰ (Permᴰ.cons e p) = cc (sort_texts-permᴰ p)
sort_texts-permᴰ (Permᴰ.swap {a = a} {b = b} {l = l} e f) = cc (insert_text_comm a b (sort_texts l))
sort_texts-permᴰ (Permᴰ.trans p q) = sort_texts-permᴰ p ∙ sort_texts-permᴰ q

-- Two lists with the same strings, as often, are sorted alike.
pub sort_texts-perm : {xs ys : List String} → Perm xs ys → sort_texts xs ≡ sort_texts ys
sort_texts-perm p = ∥∥₁_elim p (hlevel IsScalar-prop) sort_texts-permᴰ

insert_text-perm : (s : String) (l : List String) → Perm (insert_text s l) (s ∷ l)
unfolding insert_text
insert_text-perm s [] = Perm.refl (s ∷ [])
insert_text-perm s (t ∷ l) = elim (Bool-cases (le_text s t)) [
  | inl h ↦ rw h (Perm.refl (s ∷ t ∷ l))
  | inr h ↦ rw h (Perm.trans (Perm.cons t (insert_text-perm s l)) (Perm.swap s t l))
]

-- Sorting loses and adds nothing.
pub perm-sort_texts : (l : List String) → Perm (sort_texts l) l
unfolding sort_texts
perm-sort_texts [] = Perm.refl []
perm-sort_texts (s ∷ l) =
    Perm.trans (insert_text-perm s (sort_texts l)) (Perm.cons s (perm-sort_texts l))

-- Each string is at most all that follow it.
abbrev IsSorted : List String → Type 0
IsSorted [] = Unit
IsSorted (s ∷ l) = All (λ t. le_text s t ≡ true) l × IsSorted l

All-le-weaken :
    (s t : String) (l : List String)
    → le_text s t ≡ true
    → All (λ u. le_text t u ≡ true) l
    → All (λ u. le_text s u ≡ true) l
All-le-weaken s t [] h a = tt
All-le-weaken s t (u ∷ l) h a = (le_text_trans s t u h a.0, All-le-weaken s t l h a.1)

All-insert_text :
    (r s : String) (l : List String)
    → le_text r s ≡ true
    → All (λ u. le_text r u ≡ true) l
    → All (λ u. le_text r u ≡ true) (insert_text s l)
unfolding insert_text
All-insert_text r s [] h a = (h, tt)
All-insert_text r s (t ∷ l) h a = ground (arith, All-insert_text r s l h a.1)

insert_text-IsSorted : (s : String) (l : List String) → IsSorted l → IsSorted (insert_text s l)
unfolding insert_text
insert_text-IsSorted s [] h = (tt, tt)
insert_text-IsSorted s (t ∷ l) h = ground (
  arith,
  le_text_total s t,
  All-le-weaken s t l,
  All-insert_text t s l,
  insert_text-IsSorted s l h.1,
)

sort_texts-IsSorted : (l : List String) → IsSorted (sort_texts l)
unfolding sort_texts
sort_texts-IsSorted [] = tt
sort_texts-IsSorted (s ∷ l) = insert_text-IsSorted s (sort_texts l) (sort_texts-IsSorted l)

All-ne-insert_text :
    (r s : String) (l : List String)
    → r ≢ s
    → All (λ u. r ≢ u) l
    → All (λ u. r ≢ u) (insert_text s l)
unfolding insert_text
All-ne-insert_text r s [] h a = (h, tt)
All-ne-insert_text r s (t ∷ l) h a = ground (arith, All-ne-insert_text r s l h a.1)

insert_text-Distinct :
    (s : String) (l : List String) → All (λ u. s ≢ u) l → Distinct l → Distinct (insert_text s l)
unfolding insert_text
insert_text-Distinct s [] a d = (tt, tt)
insert_text-Distinct s (t ∷ l) a d =
    ground
      (arith, insert_text-Distinct s l a.1 d.1, All-ne-insert_text t s l (λ e. a.0 (sym e)) d.0)

All-ne-sort_texts :
    (r : String) (l : List String) → All (λ u. r ≢ u) l → All (λ u. r ≢ u) (sort_texts l)
unfolding sort_texts
All-ne-sort_texts r [] a = tt
All-ne-sort_texts r (s ∷ l) a =
    All-ne-insert_text r s (sort_texts l) a.0 (All-ne-sort_texts r l a.1)

-- Sorting keeps distinct strings distinct.
pub sort_texts-Distinct : (l : List String) → Distinct l → Distinct (sort_texts l)
unfolding sort_texts
sort_texts-Distinct [] d = tt
sort_texts-Distinct (s ∷ l) d =
    insert_text-Distinct s (sort_texts l) (All-ne-sort_texts s l d.0) (sort_texts-Distinct l d.1)

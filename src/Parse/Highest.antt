-- ===== src/Parse/Highest.antt =====
-- The highest of some dotted versions, where every part of each is a number.
use mathlib.Core.Path.{subst}
use sopdet.Prelude.{
  ◌≡◌, ◌<◌, ◌⊎◌, inl, inr, refl, ap, sym, ◌∙◌, Bool, true, false, none, some, List, [], ◌∷◌,
  if◌then◌else◌, All, arith, Bool-cases,
}
use sopdet.Parse.Text.{Text, split_on}
use sopdet.Parse.Number.{ℤ, pos, negsuc, atoi}
use sopdet.Parse.Versions.{
  gt_int, part_order, better_parts, parts, better_dotted, max_from, max_dotted_version,
}

gt_int_trans : (m n p : ℤ) → gt_int m n ≡ true → gt_int n p ≡ true → gt_int m p ≡ true
unfolding gt_int
gt_int_trans (pos m) (pos n) (pos p) h k = ground (arith, h, k)
gt_int_trans (pos m) (pos n) (negsuc p) h k = refl
gt_int_trans (pos m) (negsuc n) (pos p) h k = cc
gt_int_trans (pos m) (negsuc n) (negsuc p) h k = refl
gt_int_trans (negsuc m) (pos n) p h k = cc
gt_int_trans (negsuc m) (negsuc n) (pos p) h k = cc
gt_int_trans (negsuc m) (negsuc n) (negsuc p) h k = ground (arith, h, k)

gt_int_total : (m n : ℤ) → gt_int m n ≡ false → gt_int n m ≡ false → m ≡ n
unfolding gt_int
gt_int_total (pos m) (pos n) h k = ap pos (ground (arith, h, k))
gt_int_total (pos m) (negsuc n) h k = cc
gt_int_total (negsuc m) (pos n) h k = cc
gt_int_total (negsuc m) (negsuc n) h k = ap negsuc (ground (arith, h, k))

gt_int_irrefl : (m : ℤ) → gt_int m m ≡ false
unfolding gt_int
gt_int_irrefl (pos m) = ground arith
gt_int_irrefl (negsuc m) = ground arith

gt_int_asym : (m n : ℤ) → gt_int m n ≡ true → gt_int n m ≡ false
unfolding gt_int
gt_int_asym (pos m) (pos n) h = ground (arith, h)
gt_int_asym (pos m) (negsuc n) h = refl
gt_int_asym (negsuc m) (pos n) h = cc
gt_int_asym (negsuc m) (negsuc n) h = ground (arith, h)

-- The order of the versions as lists of numbers.
better_ints : List ℤ → List ℤ → Bool
better_ints [] ns = false
better_ints (m ∷ ms) [] = true
better_ints (m ∷ ms) (n ∷ ns) =
    let rest = better_ints ms ns in if gt_int m n then true else if gt_int n m then false else rest

better_ints_trans :
    (l m n : List ℤ) → better_ints l m ≡ true → better_ints m n ≡ true → better_ints l n ≡ true
unfolding better_ints
better_ints_trans [] m n h k = cc
better_ints_trans (a ∷ l) [] n h k = cc
better_ints_trans (a ∷ l) (b ∷ m) [] h k = refl
better_ints_trans (a ∷ l) (b ∷ m) (c ∷ n) h k = ground (
  arith,
  h,
  k,
  better_ints_trans l m n,
  gt_int_trans a b c,
  gt_int_total a b,
  gt_int_total b c,
  gt_int_asym a c,
  gt_int_irrefl a,
)

better_ints_total : (m n : List ℤ) → better_ints m n ≡ false → (better_ints n m ≡ true) ⊎ (m ≡ n)
unfolding better_ints
better_ints_total [] [] h = inr refl
better_ints_total [] (b ∷ n) h = inl refl
better_ints_total (a ∷ m) [] h = cc
better_ints_total (a ∷ m) (b ∷ n) h = elim (Bool-cases (gt_int a b)) [
  | inl up ↦ absurd (ground (arith, h, up))
  | inr same ↦ elim (Bool-cases (gt_int b a)) [
    | inl down ↦ inl (ground (arith, down))
    | inr equal ↦ elim (better_ints_total m n (ground (arith, h, same, equal))) [
      | inl more ↦ inl (ground (arith, equal, same, more))
      | inr e ↦ inr (rw (gt_int_total a b same equal, e) refl)
    ]
  ]
]

-- The parts of a version are these numbers.
abbrev pub Reads : List Text → List ℤ → Type 0
Reads [] [] = Unit
Reads [] (n ∷ ns) = ⊥
Reads (t ∷ ts) [] = ⊥
Reads (t ∷ ts) (n ∷ ns) = (atoi t ≡ some n) × Reads ts ns

abbrev pub IsVersion : Text → Type 0
IsVersion v = (ns : List ℤ) × Reads (parts v) ns

part_order_ints :
    (a b : Text) (m n : ℤ)
    → atoi a ≡ some m
    → atoi b ≡ some n
    → part_order a b ≡ (if gt_int m n then some true else if gt_int n m then some false else none)
unfolding part_order
part_order_ints a b m n h k = rw (part_order, h, k) refl

better_parts_ints :
    (as₁ bs : List Text) (ms ns : List ℤ)
    → Reads as₁ ms
    → Reads bs ns
    → better_parts as₁ bs ≡ better_ints ms ns
unfolding better_parts better_ints
better_parts_ints [] bs [] ns h k = refl
better_parts_ints [] bs (m ∷ ms) ns h k = absurd h
better_parts_ints (a ∷ as₁) bs [] ns h k = absurd h
better_parts_ints (a ∷ as₁) [] (m ∷ ms) [] h k = refl
better_parts_ints (a ∷ as₁) [] (m ∷ ms) (n ∷ ns) h k = absurd k
better_parts_ints (a ∷ as₁) (b ∷ bs) (m ∷ ms) [] h k = absurd k
better_parts_ints (a ∷ as₁) (b ∷ bs) (m ∷ ms) (n ∷ ns) h k =
    ground (arith, part_order_ints a b m n (h.0) (k.0), better_parts_ints as₁ bs ms ns (h.1) (k.1))

blank_unread : (ns : List ℤ) → Reads (parts []) ns → ⊥
unfolding split_on atoi
blank_unread [] h = h
blank_unread (n ∷ ns) h = ground (arith, h.0)

better_dotted_ints :
    (u v : Text) (ms ns : List ℤ)
    → Reads (parts u) ms
    → Reads (parts v) ns
    → better_dotted u v ≡ better_ints ms ns
unfolding better_dotted
better_dotted_ints u [] ms ns h k = absurd (blank_unread ns k)
better_dotted_ints u (c ∷ v) ms ns h k = better_parts_ints (parts u) (parts (c ∷ v)) ms ns h k

abbrev pub Less : ℤ → ℤ → Type 0
Less (pos m) (pos n) = m < n
Less (pos m) (negsuc n) = ⊥
Less (negsuc m) (pos n) = Unit
Less (negsuc m) (negsuc n) = n < m

-- The lexicographic order, in which a list comes before those that it begins.
abbrev pub AtMost : List ℤ → List ℤ → Type 0
AtMost [] ns = Unit
AtMost (m ∷ ms) [] = ⊥
AtMost (m ∷ ms) (n ∷ ns) = Less m n ⊎ ((m ≡ n) × AtMost ms ns)

-- The numbers of the first version are at most those of the second, in the lexicographic order.
abbrev pub IsAtMost : Text → Text → Type 0
IsAtMost v r =
    (ms : List ℤ) × (ns : List ℤ) × Reads (parts v) ms × Reads (parts r) ns × AtMost ms ns

gt_int-Less : (m n : ℤ) → gt_int m n ≡ true → Less n m
unfolding gt_int
gt_int-Less (pos m) (pos n) h = ground (arith, h)
gt_int-Less (pos m) (negsuc n) h = tt
gt_int-Less (negsuc m) (pos n) h = absurd cc
gt_int-Less (negsuc m) (negsuc n) h = ground (arith, h)

better_ints-AtMost : (ms ns : List ℤ) → better_ints ms ns ≡ false → AtMost ms ns
unfolding better_ints
better_ints-AtMost [] ns h = tt
better_ints-AtMost (m ∷ ms) [] h = absurd cc
better_ints-AtMost (m ∷ ms) (n ∷ ns) h = elim (Bool-cases (gt_int m n)) [
  | inl up ↦ absurd (ground (arith, h, up))
  | inr same ↦ elim (Bool-cases (gt_int n m)) [
    | inl down ↦ inl (gt_int-Less n m down)
    | inr equal ↦
        inr (gt_int_total m n same equal, better_ints-AtMost ms ns (ground (arith, h, same, equal)))
  ]
]

not_better-IsAtMost :
    (v r : Text) → IsVersion v → IsVersion r → better_dotted v r ≡ false → IsAtMost v r
not_better-IsAtMost v r (ms, hv) (ns, hr) low =
    (ms, ns, hv, hr, better_ints-AtMost ms ns (sym (better_dotted_ints v r ms ns hv hr) ∙ low))

-- Nothing of the list is better.
abbrev IsHighest : Text → List Text → Type 0
IsHighest r vs = All (λ v. better_dotted v r ≡ false) vs

abbrev pub IsGreatest : Text → List Text → Type 0
IsGreatest r vs = All (λ v. IsAtMost v r) vs

IsHighest-IsGreatest :
    (r : Text) (vs : List Text) → IsVersion r → All IsVersion vs → IsHighest r vs → IsGreatest r vs
IsHighest-IsGreatest r [] hr hs h = tt
IsHighest-IsGreatest r (v ∷ vs) hr hs h =
    (not_better-IsAtMost v r (hs.0) hr (h.0), IsHighest-IsGreatest r vs hr (hs.1) (h.1))

abbrev pub In : Text → List Text → Type 0
In r [] = ⊥
In r (v ∷ vs) = (r ≡ v) ⊎ In r vs

-- If the second is not better than the third, and the first not better than the second, the first is not better than
-- the third.
not_better_trans :
    (u v r : Text)
    → IsVersion u
    → IsVersion v
    → IsVersion r
    → better_dotted u v ≡ false
    → better_dotted v r ≡ false
    → better_dotted u r ≡ false
not_better_trans u v r (l, hl) (m, hm) (n, hn) h k =
    let uv = better_dotted_ints u v l m hl hm in
    let vr = better_dotted_ints v r m n hm hn in
    let ur = better_dotted_ints u r l n hl hn in ur ∙ ints (sym uv ∙ h) (sym vr ∙ k)
  where
    ints : better_ints l m ≡ false → better_ints m n ≡ false → better_ints l n ≡ false
    ints p q = elim (better_ints_total l m p) [
      | inl e ↦ elim (Bool-cases (better_ints l n)) [
        | inl up ↦ absurd (ground (arith, q, better_ints_trans m l n e up))
        | inr low ↦ low
      ]
      | inr e ↦ rw e q
    ]

better_ints_irrefl : (ms : List ℤ) → better_ints ms ms ≡ false
unfolding better_ints
better_ints_irrefl [] = refl
better_ints_irrefl (m ∷ ms) = ground (arith, gt_int_irrefl m, better_ints_irrefl ms)

not_better_self : (v : Text) → IsVersion v → better_dotted v v ≡ false
not_better_self v (m, h) = better_dotted_ints v v m m h h ∙ better_ints_irrefl m

not_better_back :
    (u v : Text) → IsVersion u → IsVersion v → better_dotted u v ≡ true → better_dotted v u ≡ false
not_better_back u v (l, hl) (m, hm) h =
    let uv = better_dotted_ints u v l m hl hm in
    let vu = better_dotted_ints v u m l hm hl in
    elim (Bool-cases (better_ints m l)) [
      | inl up ↦
          absurd (ground (arith, better_ints_irrefl l, better_ints_trans l m l (sym uv ∙ h) up))
      | inr low ↦ vu ∙ low
    ]

-- A version among some that is not worse than any of them.
abbrev IsChosen : List Text → Text → Type 0
IsChosen vs r = In r vs × IsVersion r × IsHighest r vs

max_from_cons :
    (b v : Text) (vs : List Text)
    → max_from b (v ∷ vs) ≡ max_from (if better_dotted v b then v else b) vs
unfolding max_from
max_from_cons b v vs = refl

max_from-IsChosen :
    (b : Text) (vs : List Text) → IsVersion b → All IsVersion vs → IsChosen (b ∷ vs) (max_from b vs)
max_from-IsChosen b [] hb hs = unfold max_from in (inl refl, hb, (not_better_self b hb, tt))
max_from-IsChosen b (v ∷ vs) hb hs = elim (Bool-cases (better_dotted v b)) [
  | inl up ↦
      let (found, r, (high, rest)) = max_from-IsChosen v vs (hs.0) (hs.1) in
      subst (IsChosen (b ∷ v ∷ vs))
        (sym (max_from_cons b v vs ∙ ap (λ t. max_from t vs) (rw up refl)))
        (
          inr found,
          r,
          (
            not_better_trans b v _ hb (hs.0) r (not_better_back v b (hs.0) hb up) high,
            (high, rest),
          ),
        )
  | inr low ↦
      let (found, r, (high, rest)) = max_from-IsChosen b vs hb (hs.1) in
      subst (IsChosen (b ∷ v ∷ vs))
        (sym (max_from_cons b v vs ∙ ap (λ t. max_from t vs) (rw low refl)))
        (
          elim found [ inl e ↦ inl e | inr e ↦ inr (inr e) ],
          r,
          (high, (not_better_trans v b _ (hs.0) hb r low high, rest)),
        )
]

max_dotted_version_cons :
    (v : Text) (vs : List Text) → IsVersion v → max_dotted_version (v ∷ vs) ≡ max_from v vs
unfolding max_dotted_version max_from better_dotted
max_dotted_version_cons [] vs (ns, h) = absurd (blank_unread ns h)
max_dotted_version_cons (c ∷ v) vs h = refl

-- Of at least one version, where every part of every version is a number, `maxDottedVersion` is one of them, and the numbers
-- of each of them are at most its own, in the lexicographic order.
pub max_dotted_version-IsGreatest :
    (v : Text) (vs : List Text)
    → All IsVersion (v ∷ vs)
    → In (max_dotted_version (v ∷ vs)) (v ∷ vs) × IsGreatest (max_dotted_version (v ∷ vs)) (v ∷ vs)
max_dotted_version-IsGreatest v vs (hv, hs) =
    let (found, r, high) =
      subst (IsChosen (v ∷ vs)) (sym (max_dotted_version_cons v vs hv))
        (max_from-IsChosen v vs hv hs) in
    (found, IsHighest-IsGreatest (max_dotted_version (v ∷ vs)) (v ∷ vs) r (hv, hs) high)

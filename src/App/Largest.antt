-- ===== src/App/Largest.antt =====
-- One trim of the collections: what `largest` finds, and what `trim_entity` keeps.
use sopdet.Prelude.{
  ℕ, ◌+◌, ◌≤◌, ◌<◌, ◌≡◌, ◌≢◌, refl, ap, sym, ◌∙◌, ◌⊎◌, inl, inr, String, Bool, true, false, some,
  List, [], ◌∷◌, All, arith, ltb, ◌=ˢ◌, eq_iff, if◌then◌else◌, length, Bool-cases, length-take,
  ltb→lt, ltb→le,
}
use sopdet.Prelude.GoMap.{lookup, keys, IsMap}
use sopdet.Schema.Types.{EntityCollection}
use sopdet.App.Budget.{Entities, largest, half, trim_collection, trim_entity}

-- The collection of this name has this many records.
abbrev pub Holds : String → ℕ → Entities → Type 0
Holds name best es = (c : EntityCollection) × (lookup name es ≡ some c) × (length c.records ≡ best)

pub Holds-later :
    (name n : String) (best : ℕ) (c : EntityCollection) (es : Entities)
    → n ≢ name
    → Holds name best es
    → Holds name best ((n, c) ∷ es)
unfolding lookup
Holds-later name n best c es ne (d, l, k) = (d, ground (arith, l, ne, eq_iff n name), k)

pub absent_ne :
    (n name : String) (es : Entities)
    → All (λ i. n ≢ i) (keys es)
    → (c : EntityCollection) → lookup name es ≡ some c
    → n ≢ name
unfolding lookup
absent_ne n name [] a c h = cc h
absent_ne n name ((i, d) ∷ es) a c h = elim (Bool-cases (i =ˢ name)) [
  | inl e ↦ λ p. a.0 (p ∙ sym ((eq_iff i name).0 e))
  | inr e ↦ absent_ne n name es a.1 c (ground (arith, e, h))
]

-- A pair that `largest` may return: the start, or a collection of the list.
abbrev pub Found : String → ℕ → Entities → String × ℕ → Type 0
Found name best es r = (r ≡ (name, best)) ⊎ Holds r.0 r.1 es

Found-here :
    (n : String) (c : EntityCollection) (es : Entities) (name : String) (best : ℕ) (r : String × ℕ)
    → All (λ i. n ≢ i) (keys es)
    → Found n (length c.records) es r
    → Found name best ((n, c) ∷ es) r
unfolding lookup
Found-here n c es name best r a (inl e) = inr (c, ground (arith, e, eq_iff n n), ground (arith, e))
Found-here n c es name best r a (inr (d, l, k)) =
    inr (Holds-later r.0 n r.1 c es (absent_ne n r.0 es a d l) (d, l, k))

Found-later :
    (n : String) (c : EntityCollection) (es : Entities) (name : String) (best : ℕ) (r : String × ℕ)
    → All (λ i. n ≢ i) (keys es)
    → Found name best es r
    → Found name best ((n, c) ∷ es) r
Found-later n c es name best r a (inl e) = inl e
Found-later n c es name best r a (inr (d, l, k)) =
    inr (Holds-later r.0 n r.1 c es (absent_ne n r.0 es a d l) (d, l, k))

pub largest-Found :
    (name : String) (best : ℕ) (es : Entities)
    → IsMap es
    → Found name best es (largest name best es)
unfolding largest
largest-Found name best [] m = inl refl
largest-Found name best ((n, c) ∷ es) m =
    elim (ltb best (length c.records))
      as (λ b.
        Found name best ((n, c) ∷ es)
          (if b then largest n (length c.records) es else largest name best es)) [
            | true ↦
                Found-here n c es name best (largest n (length c.records) es) m.0
                  (largest-Found n (length c.records) es m.1)
            | false ↦
                Found-later n c es name best (largest name best es) m.0
                  (largest-Found name best es m.1)
          ]

-- Nothing is larger than what is found.
pub largest-le :
    (name : String) (best : ℕ) (es : Entities)
    → (best ≤ (largest name best es).1)
      × All (λ entry. length (entry.1).records ≤ (largest name best es).1) es
unfolding largest
largest-le name best [] = (omega arith, tt)
largest-le name best ((n, c) ∷ es) =
    from (ltb best (length c.records)) refl (largest-le n (length c.records) es)
      (largest-le name best es)
  where
    IsLargest : (String × ℕ) → ℕ → Type 0
    IsLargest r low = (low ≤ r.1) × All (λ entry. length (entry.1).records ≤ r.1) es

    from :
        (b : Bool)
        → ltb best (length c.records) ≡ b
        → IsLargest (largest n (length c.records) es) (length c.records)
        → IsLargest (largest name best es) best
        → let r = if b then largest n (length c.records) es else largest name best es in
          (best ≤ r.1)
          × ((length c.records ≤ r.1) × All (λ entry. length (entry.1).records ≤ r.1) es)
    from true e (low, rest) other =
        (omega (arith, low, ltb→lt best (length c.records) e), (low, rest))
    from false e other (low, rest) =
        (low, (omega (arith, low, ltb→le best (length c.records) e), rest))

-- The records of a collection and those that it says it has left out.
abbrev pub total : EntityCollection → ℕ
total c = length c.records + c.omitted

unfoldable pub totals : Entities → List (String × ℕ)
totals [] = []
totals ((n, c) ∷ es) = (n, total c) ∷ totals es

pub total-trim_collection :
    (c : EntityCollection) (best : ℕ)
    → 1 < best
    → length c.records ≡ best
    → total (trim_collection best c) ≡ total c
total-trim_collection c best h k = ground (arith, length-take (half best) c.records)

pub totals-trim_entity :
    (name : String) (best : ℕ) (es : Entities)
    → 1 < best
    → Holds name best es
    → totals (trim_entity name best es) ≡ totals es
unfolding totals trim_entity lookup
totals-trim_entity name best [] h held = refl
totals-trim_entity name best ((n, c) ∷ es) h (d, l, k) = elim (Bool-cases (n =ˢ name)) [
  | inl e ↦
      let same : c ≡ d = ground (arith, e, l) in
      rw e (
        ap (λ t. (n, t) ∷ totals es)
          (total-trim_collection c best h (ap (λ x. length x.records) same ∙ k)))
  | inr e ↦
      rw e (
        ap (λ t. (n, total c) ∷ t) (totals-trim_entity name best es h (d, ground (arith, e, l), k)))
]

pub keys-trim_entity :
    (name : String) (best : ℕ) (es : Entities) → keys (trim_entity name best es) ≡ keys es
unfolding trim_entity
keys-trim_entity name best [] = refl
keys-trim_entity name best ((n, c) ∷ es) = elim (Bool-cases (n =ˢ name)) [
  | inl e ↦ rw e refl
  | inr e ↦ rw e (ap (λ l. n ∷ l) (keys-trim_entity name best es))
]

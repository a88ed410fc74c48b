-- ===== src/App/Trimmed.antt =====
-- What `enforceBudget` leaves of the collections.
use mathlib.Core.Path.{subst}
use sopdet.Prelude.{
  ℕ, zero, suc, ◌+◌, ◌≤◌, ◌<◌, ◌≡◌, ◌≢◌, refl, ap, sym, ◌∙◌, ◌⊎◌, inl, inr, String, true, false,
  Option, none, some, Option-cases, List, [], ◌∷◌, All, arith, leb, ◌==◌, ◌=ˢ◌, eq_iff,
  if◌then◌else◌, length, Bool-cases, length-append, leb→lt, leb→le, All-map,
}
use sopdet.Prelude.GoMap.{lookup, keys, IsMap, lookup_absent}
use sopdet.App.Budget.{
  Entities, largest, trim_note, Budget, is_done, trim, trim_rounds, max_rounds, enforce_budget,
}
use sopdet.App.Largest.{
  Holds, largest-Found, largest-le, totals, totals-trim_entity, keys-trim_entity,
}

module _ (size : Entities → Option ℕ) (max : ℕ) where
  -- What one round decides.
  data Round (left : ℕ) (b : Budget) : Type 0 where
    small :
        is_done size max b.entities ≡ true → trim_rounds size max (suc left) b ≡ b → Round left b
    single :
        (((largest "" 0 b.entities).0 ≡ "") ⊎ ((largest "" 0 b.entities).1 ≤ 1))
        → trim_rounds size max (suc left) b ≡ b
        → Round left b
    trimmed :
        (largest "" 0 b.entities).0 ≢ ""
        → 1 < (largest "" 0 b.entities).1
        → trim_rounds size max (suc left) b
          ≡ trim_rounds size max left
              (trim size max (largest "" 0 b.entities).0 (largest "" 0 b.entities).1 b)
        → Round left b

  round : (left : ℕ) (b : Budget) → Round left b
  unfolding trim_rounds
  round left b = elim (Bool-cases (is_done size max b.entities)) [
    | inl e ↦ small e (rw e refl)
    | inr e ↦ elim (Bool-cases ((largest "" 0 b.entities).0 =ˢ "")) [
      | inl n ↦ single (inl ((eq_iff (largest "" 0 b.entities).0 "").0 n)) (rw (e, n) refl)
      | inr n ↦ elim (Bool-cases (leb (largest "" 0 b.entities).1 1)) [
        | inl o ↦ single (inr (leb→le (largest "" 0 b.entities).1 1 o)) (rw (e, n, o) refl)
        | inr o ↦
            trimmed (λ p. ground (arith, n, p, eq_iff (largest "" 0 b.entities).0 ""))
              (leb→lt (largest "" 0 b.entities).1 1 o) (rw (e, n, o) refl)
      ]
    ]
  ]

  found :
      (es : Entities)
      → IsMap es
      → 1 < (largest "" 0 es).1
      → Holds (largest "" 0 es).0 (largest "" 0 es).1 es
  found es m h = elim (largest-Found "" 0 es m) [
    | inl e ↦ absurd (ground (arith, e, h))
    | inr held ↦ held
  ]

  trim-IsMap :
      (name : String) (best : ℕ) (b : Budget)
      → IsMap b.entities
      → IsMap (trim size max name best b).entities
  unfolding trim
  trim-IsMap name best b m = rw (keys-trim_entity name best b.entities) m

  totals-trim_rounds :
      (left : ℕ) (b : Budget)
      → IsMap b.entities
      → totals (trim_rounds size max left b).entities ≡ totals b.entities
  totals-trim_rounds zero b m = unfold trim_rounds in refl
  totals-trim_rounds (suc left) b m = elim (round left b) [
    | small d e ↦ ap (λ r. totals r.entities) e
    | single o e ↦ ap (λ r. totals r.entities) e
    | trimmed n h e ↦
        let name = (largest "" 0 b.entities).0 in
        let best = (largest "" 0 b.entities).1 in
        ap (λ r. totals r.entities) e
        ∙ totals-trim_rounds left (trim size max name best b) (trim-IsMap name best b m)
        ∙ (unfold trim in totals-trim_entity name best b.entities h (found b.entities m h))
  ]

  stays_summarized :
      (left : ℕ) (b : Budget)
      → b.summarized ≡ true
      → (trim_rounds size max left b).summarized ≡ true
  stays_summarized zero b h = unfold trim_rounds in h
  stays_summarized (suc left) b h = elim (round left b) [
    | small d e ↦ ap (λ r. r.summarized) e ∙ h
    | single o e ↦ ap (λ r. r.summarized) e ∙ h
    | trimmed n m e ↦
        ap (λ r. r.summarized) e
        ∙ stays_summarized left
            (trim size max (largest "" 0 b.entities).0 (largest "" 0 b.entities).1 b)
            (unfold trim in refl)
  ]

  unsummarized_same :
      (left : ℕ) (b : Budget)
      → (trim_rounds size max left b).summarized ≡ false
      → trim_rounds size max left b ≡ b
  unsummarized_same zero b h = unfold trim_rounds in refl
  unsummarized_same (suc left) b h = elim (round left b) [
    | small d e ↦ e
    | single o e ↦ e
    | trimmed n m e ↦
        let later =
          stays_summarized left
            (trim size max (largest "" 0 b.entities).0 (largest "" 0 b.entities).1 b)
            (unfold trim in refl) in
        absurd (ground (arith, e, h, later))
  ]

  -- No collection is larger than one record.
  abbrev pub IsMinimal : Entities → Type 0
  IsMinimal es = All (λ entry. length (entry.1).records ≤ 1) es

  abbrev pub IsNamed : Entities → Type 0
  IsNamed es = All (λ n. "" ≢ n) (keys es)

  minimal :
      (es : Entities)
      → IsMap es
      → IsNamed es
      → ((largest "" 0 es).0 ≡ "") ⊎ ((largest "" 0 es).1 ≤ 1)
      → IsMinimal es
  minimal es m named o = elim (Bool-cases (leb (largest "" 0 es).1 1)) [
    | inl few ↦
        All-map (λ entry h. omega (arith, h, leb→le (largest "" 0 es).1 1 few)) es
          (largest-le "" 0 es).1
    | inr many ↦
        let (c, l, k) = found es m (leb→lt (largest "" 0 es).1 1 many) in
        elim o [
          | inl e ↦ absurd (ground (arith, lookup_absent "" es named, ap (λ n. lookup n es) e, l))
          | inr few ↦ absurd (omega (arith, few, leb→lt (largest "" 0 es).1 1 many))
        ]
  ]

  -- The entities are at most as large as the maximum, or they have no size.
  abbrev pub Fits : Entities → Type 0
  Fits es = ((n : ℕ) × (size es ≡ some n) × (n ≤ max)) ⊎ (size es ≡ none)

  is_done-Fits : (es : Entities) → is_done size max es ≡ true → Fits es
  is_done-Fits es d = elim (Option-cases (size es)) [
    | inl unmeasured ↦ inr unmeasured
    | inr (n, e) ↦ inl (n, e, ground (arith, d, e))
  ]

  -- How the loop can end.
  abbrev pub IsEnd : ℕ → Budget → Budget → Type 0
  IsEnd left b r =
      Fits r.entities ⊎ IsMinimal r.entities ⊎ (length r.truncated ≡ length b.truncated + left)

  trim_rounds-IsEnd :
      (left : ℕ) (b : Budget)
      → IsMap b.entities
      → IsNamed b.entities
      → IsEnd left b (trim_rounds size max left b)
  trim_rounds-IsEnd zero b m named = unfold trim_rounds in inr (inr (omega arith))
  trim_rounds-IsEnd (suc left) b m named = elim (round left b) [
    | small d e ↦ subst (IsEnd (suc left) b) (sym e) (inl (is_done-Fits b.entities d))
    | single o e ↦ subst (IsEnd (suc left) b) (sym e) (inr (inl (minimal b.entities m named o)))
    | trimmed n h e ↦
        let name = (largest "" 0 b.entities).0 in
        let best = (largest "" 0 b.entities).1 in
        let b' = trim size max name best b in
        let longer : length b'.truncated ≡ length b.truncated + 1 =
          unfold trim in length-append b.truncated (trim_note name best ∷ []) in
        let named' : IsNamed b'.entities =
          unfold trim in rw (keys-trim_entity name best b.entities) named in
        subst (IsEnd (suc left) b) (sym e)
          (elim (trim_rounds-IsEnd left b' (trim-IsMap name best b m) named') [
            | inl d ↦ inl d
            | inr (inl o) ↦ inr (inl o)
            | inr (inr l) ↦ inr (inr (omega (arith, l, longer)))
          ])
  ]

  -- The records of a collection and those that it says are omitted are together as many as before the
  -- budget was enforced, for each collection under its name.
  pub totals-enforce_budget :
      (es : Entities) (truncated : List String)
      → IsMap es
      → totals (enforce_budget size max es truncated).entities ≡ totals es
  unfolding enforce_budget
  totals-enforce_budget es truncated m =
      let b : Budget = record { entities = es; truncated = truncated; summarized = false } in
      elim (max == 0)
        as (λ z. totals (if z then b else trim_rounds size max max_rounds b).entities ≡ totals es) [
          | true ↦ refl
          | false ↦ totals-trim_rounds max_rounds b m
        ]

  -- If the budget is not reported as summarized, nothing was changed.
  pub enforce_budget_unsummarized :
      (es : Entities) (truncated : List String)
      → (enforce_budget size max es truncated).summarized ≡ false
      → ((enforce_budget size max es truncated).entities ≡ es)
        × ((enforce_budget size max es truncated).truncated ≡ truncated)
  unfolding enforce_budget
  enforce_budget_unsummarized es truncated h =
      let b : Budget = record { entities = es; truncated = truncated; summarized = false } in
      elim (Bool-cases (max == 0)) [
        | inl z ↦ rw z (refl, refl)
        | inr z ↦ let same = unsummarized_same max_rounds b (rw z at h) in rw (z, same) (refl, refl)
      ]

  -- With a positive maximum, the loop ends with entities that fit into it or cannot be measured, or with at
  -- most one record in each collection, or after 40 trims, if no collection has the empty name.
  pub enforce_budget-IsEnd :
      (es : Entities) (truncated : List String)
      → IsMap es
      → IsNamed es
      → 0 < max
      → IsEnd max_rounds
          (record { entities = es; truncated = truncated; summarized = false })
          (enforce_budget size max es truncated)
  unfolding enforce_budget
  enforce_budget-IsEnd es truncated m named pos =
      let b : Budget = record { entities = es; truncated = truncated; summarized = false } in
      let z : (max == 0) ≡ false = ground arith in rw z (trim_rounds-IsEnd max_rounds b m named)

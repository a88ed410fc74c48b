-- ===== src/Parse/Text.antt =====
-- The string functions that internal/collect/assess_parse.go uses, on code points: a text is taken to be valid
-- UTF-8. What Go's libraries know of Unicode and of addresses is a parameter.
use sopdet.Prelude.{
  ℕ, zero, suc, String, ◌≡◌, refl, ap, sym, inl, inr, Bool-cases, Bool, true, false, not, Option,
  none, some, List, [], ◌∷◌, ◌++◌, ◌==◌, if◌then◌else◌, length, drop, keep, arith,
}
use sopdet.Prelude.Text.{is_space, codes, same_codes, has_prefix, contains_codes, trim_space}

abbrev pub Text : Type 0
Text = List ℕ

-- The functions of Go's libraries. `is_ipv4` and `is_ip` are what `net.ParseIP` and `To4` tell of a text, `show_ip`
-- is `net.IPv4(…).String()`.
pub record Library : Type 0 where
  pub to_lower : ℕ → ℕ
  pub to_upper : ℕ → ℕ
  pub equal_fold : Text → Text → Bool
  pub is_ip : Text → Bool
  pub is_ipv4 : Text → Bool
  pub show_ip : ℕ → ℕ → ℕ → ℕ → Text

abbrev pub is_blank {ℓ} : {A : Type ℓ} → List A → Bool
is_blank [] = true
is_blank (x ∷ xs) = false

abbrev pub add_to_first : ℕ → List Text → List Text
add_to_first c [] = (c ∷ []) ∷ []
add_to_first c (t ∷ ts) = (c ∷ t) ∷ ts

-- The parts between the code points that pass the test, empty ones included.
unfoldable pub split_on : (ℕ → Bool) → Text → List Text
split_on p [] = [] ∷ []
split_on p (c ∷ cs) = let rest = split_on p cs in if p c then [] ∷ rest else add_to_first c rest

-- `strings.Split(s, "\n")`
abbrev pub lines : Text → List Text
lines s = split_on (λ c. c == 10) s

-- `strings.Fields`
abbrev pub fields : Text → List Text
fields s = keep (λ t. not (is_blank t)) (split_on is_space s)

-- `strings.Join(ts, sep)`
unfoldable pub join : Text → List Text → Text
join sep [] = []
join sep (t ∷ []) = t
join sep (t ∷ u ∷ ts) = t ++ (sep ++ join sep (u ∷ ts))

-- `strings.TrimPrefix`
abbrev pub trim_prefix : Text → Text → Text
trim_prefix s p = if has_prefix s p then drop (length p) s else s

-- `cutColon`
unfoldable pub cut_colon : Text → Option (Text × Text)
cut_colon [] = none
cut_colon (c ∷ cs) =
    let rest = cut_colon cs in
    if c == 58 then some ([], cs) else elim rest [ none ↦ none | some kv ↦ some (c ∷ kv.0, kv.1) ]

-- Comparison with a literal, `strings.HasPrefix` and `strings.Contains` of one.
abbrev pub is_word : Text → String → Bool
is_word t w = same_codes t (codes w)

abbrev pub starts : Text → String → Bool
starts t w = has_prefix t (codes w)

abbrev pub holds : Text → String → Bool
holds t w = contains_codes t (codes w)

-- `strings.TrimSpace(strings.TrimPrefix(t, w))`
abbrev pub rest_after : Text → String → Text
rest_after t w = trim_space (trim_prefix t (codes w))

-- `f[n]`, after a test of the length.
abbrev pub nth : ℕ → List Text → Text
nth n [] = []
nth zero (t ∷ ts) = t
nth (suc n) (t ∷ ts) = nth n ts

-- A Go map from texts to texts.
abbrev pub Table : Type 0
Table = List (Text × Text)

unfoldable pub find : Text → Table → Option Text
find k [] = none
find k (entry ∷ m) = let rest = find k m in if same_codes k (entry.0) then some (entry.1) else rest

unfoldable pub put : Text → Text → Table → Table
put k v [] = (k, v) ∷ []
put k v (entry ∷ m) =
    let rest = put k v m in if same_codes k (entry.0) then (k, v) ∷ m else entry ∷ rest

-- `m[k]`, the empty text where the key is missing.
abbrev pub at : Text → Table → Text
at k m = elim (find k m) [ none ↦ [] | some v ↦ v ]

pub same_codes_refl : (s : Text) → same_codes s s ≡ true
unfolding same_codes
same_codes_refl [] = refl
same_codes_refl (c ∷ cs) = ground (arith, same_codes_refl cs)

pub same_codes_eq : (s t : Text) → same_codes s t ≡ true → s ≡ t
unfolding same_codes
same_codes_eq [] [] h = refl
same_codes_eq [] (d ∷ ds) h = cc
same_codes_eq (c ∷ cs) [] h = cc
same_codes_eq (c ∷ cs) (d ∷ ds) h = ground (arith, same_codes_eq cs ds, h)

same_codes_shared :
    (s t u : Text) → same_codes s t ≡ true → same_codes s u ≡ true → same_codes t u ≡ true
same_codes_shared s t u h k =
    rw (sym (same_codes_eq s t h), sym (same_codes_eq s u k)) (same_codes_refl s)

-- What is put under a key is found under it, and under any other key what was there before.
pub find-put :
    (k j v : Text) (m : Table) → find k (put j v m) ≡ (if same_codes k j then some v else find k m)
unfolding find put
find-put k j v [] = ground arith
find-put k j v (entry ∷ m) = elim (Bool-cases (same_codes j entry.0)) [
  | inl hit ↦ ground (arith, hit, ap (same_codes k) (same_codes_eq j entry.0 hit))
  | inr miss ↦ ground (arith, miss, find-put k j v m, same_codes_shared k j entry.0)
]

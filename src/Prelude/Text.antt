-- ===== src/Prelude/Text.antt =====
-- Texts: their order and sorting, and what the strings package does with them.
use Prim.Native.Char.{code}
use Prim.Native.String.{String}
use mathlib.Core.Path.{◌≡◌, refl}
use Prim.Native.Nat.{ℕ, zero, suc, ◌+◌, ◌≤◌}
use Prim.Native.String.{◌++◌}
use text.Mathlib.TextLemmas.{nil-append, cons-append}
use mathlib.Core.Path.{ap, ◌∙◌}
use mathlib.Core.Logic.{inl, inr}
use Prim.Native.Char.{Char}
use sopdet.Prelude.Tests.{Bool-cases}
use mathlib.Core.List.{List, [], ◌∷◌, reverse}
use mathlib.Core.Bool.{◌&&◌}
use sopdet.Prelude.Tests.{leb}
use mathlib.Core.Bool.{Bool, true, false}
use native.Mathlib.Omega.{arith}
use text.Mathlib.Text.{◌==◌ as str_eq}
use mathlib.Core.Bool.{◌||◌}
use text.Mathlib.TextEquality.{Char-path}
use sopdet.Prelude.Tests.{◌==◌, ltb, if◌then◌else◌}

-- The order of strings in Go: by bytes, which is the order of the code points.
unfoldable pub le_text : String → String → Bool
le_text String.[] t = true
le_text (String.◌∷◌ c s) String.[] = false
le_text (String.◌∷◌ c s) (String.◌∷◌ d t) =
    if code c == code d then le_text s t else ltb (code c) (code d)

pub le_text_total : (s t : String) → le_text s t ≡ false → le_text t s ≡ true
unfolding le_text
le_text_total String.[] t h = cc
le_text_total (String.◌∷◌ c s) String.[] h = refl
le_text_total (String.◌∷◌ c s) (String.◌∷◌ d t) h = ground (arith, le_text_total s t)

pub le_text_antisymm : (s t : String) → le_text s t ≡ true → le_text t s ≡ true → s ≡ t
unfolding le_text
le_text_antisymm String.[] String.[] h k = refl
le_text_antisymm String.[] (String.◌∷◌ d t) h k = cc
le_text_antisymm (String.◌∷◌ c s) String.[] h k = cc
le_text_antisymm (String.◌∷◌ c s) (String.◌∷◌ d t) h k =
    ground (arith, le_text_antisymm s t, Char-path c d)

pub le_text_trans : (s t u : String) → le_text s t ≡ true → le_text t u ≡ true → le_text s u ≡ true
unfolding le_text
le_text_trans String.[] t u h k = refl
le_text_trans (String.◌∷◌ c s) String.[] u h k = cc
le_text_trans (String.◌∷◌ c s) (String.◌∷◌ d t) String.[] h k = cc
le_text_trans (String.◌∷◌ c s) (String.◌∷◌ d t) (String.◌∷◌ e u) h k =
    ground (arith, le_text_trans s t u)

-- `strings.HasSuffix(s, t)`
unfoldable pub ends_with : String → String → Bool
ends_with String.[] t = str_eq String.[] t
ends_with (String.◌∷◌ c s) t = str_eq (String.◌∷◌ c s) t || ends_with s t

abbrev pub count_chars : String → ℕ
count_chars String.[] = 0
count_chars (String.◌∷◌ c s) = suc (count_chars s)

-- The slices `s[:n]` and `s[n:]` of an ASCII text.
unfoldable pub text_take : ℕ → String → String
text_take zero s = String.[]
text_take (suc n) String.[] = String.[]
text_take (suc n) (String.◌∷◌ c s) = String.◌∷◌ c (text_take n s)

unfoldable pub text_drop : ℕ → String → String
text_drop zero s = s
text_drop (suc n) String.[] = String.[]
text_drop (suc n) (String.◌∷◌ c s) = text_drop n s

pub text_take-drop : (n : ℕ) (s : String) → text_take n s ++ text_drop n s ≡ s
unfolding text_take text_drop
text_take-drop zero s = nil-append s
text_take-drop (suc n) String.[] = refl
text_take-drop (suc n) (String.◌∷◌ c s) = rw cons-append (ap (String.◌∷◌ c) (text_take-drop n s))

pub count_chars-text_take :
    (n : ℕ) (s : String) → n ≤ count_chars s → count_chars (text_take n s) ≡ n
unfolding text_take
count_chars-text_take zero s h = refl
count_chars-text_take (suc n) String.[] h = absurd (omega arith)
count_chars-text_take (suc n) (String.◌∷◌ c s) h = ap suc (count_chars-text_take n s (omega arith))

-- `strings.TrimRight(s, "/")`
unfoldable pub trim_right_slashes : String → String
trim_right_slashes String.[] = String.[]
trim_right_slashes (String.◌∷◌ c s) =
    let t = trim_right_slashes s in
    if str_eq t "" && code c == 47 then String.[] else String.◌∷◌ c t

trim_right_slashes_cons :
    (c : Char) (s : String)
    → (str_eq (trim_right_slashes s) "" && code c == 47) ≡ false
    → trim_right_slashes (String.◌∷◌ c s) ≡ String.◌∷◌ c (trim_right_slashes s)
unfolding trim_right_slashes
trim_right_slashes_cons c s h = rw h

trim_right_slashes_end :
    (c : Char) (s : String)
    → (str_eq (trim_right_slashes s) "" && code c == 47) ≡ true
    → trim_right_slashes (String.◌∷◌ c s) ≡ ""
unfolding trim_right_slashes
trim_right_slashes_end c s h = rw h

pub trim_right_slashes_idem :
    (s : String) → trim_right_slashes (trim_right_slashes s) ≡ trim_right_slashes s
trim_right_slashes_idem String.[] = unfold trim_right_slashes in refl
trim_right_slashes_idem (String.◌∷◌ c s) =
    let ih = trim_right_slashes_idem s in
    elim (Bool-cases (str_eq (trim_right_slashes s) "" && code c == 47)) [
      | inl e ↦ rw (trim_right_slashes_end c s e) (unfold trim_right_slashes in refl)
      | inr e ↦
          rw (trim_right_slashes_cons c s e)
            (trim_right_slashes_cons c (trim_right_slashes s) (rw ih e) ∙ ap (String.◌∷◌ c) ih)
    ]

-- The white space of `strings.TrimSpace`.
abbrev pub is_space : ℕ → Bool
is_space c =
    (leb 9 c && leb c 13)
    || c == 32
    || c == 0x85
    || c == 0xa0
    || c == 0x1680
    || (leb 0x2000 c && leb c 0x200a)
    || c == 0x2028
    || c == 0x2029
    || c == 0x202f
    || c == 0x205f
    || c == 0x3000

abbrev pub codes : String → List ℕ
codes String.[] = []
codes (String.◌∷◌ first rest) = code first ∷ codes rest

unfoldable drop_spaces : List ℕ → List ℕ
drop_spaces [] = []
drop_spaces (c ∷ cs) = if is_space c then drop_spaces cs else c ∷ cs

-- `strings.TrimSpace`, on code points.
unfoldable pub trim_space : List ℕ → List ℕ
unfolding drop_spaces
trim_space cs = reverse (drop_spaces (reverse (drop_spaces cs)))

-- `strings.ToLower` on the ASCII letters; other code points are left alone.
unfoldable pub to_lower : ℕ → ℕ
to_lower c = if leb b'A' c && leb c b'Z' then c + 32 else c

unfoldable pub same_codes : List ℕ → List ℕ → Bool
same_codes [] [] = true
same_codes [] (d ∷ ds) = false
same_codes (c ∷ cs) [] = false
same_codes (c ∷ cs) (d ∷ ds) = c == d && same_codes cs ds

-- `strings.HasPrefix` and `strings.Contains`, on code points.
unfoldable pub has_prefix : List ℕ → List ℕ → Bool
has_prefix cs [] = true
has_prefix [] (d ∷ ds) = false
has_prefix (c ∷ cs) (d ∷ ds) = c == d && has_prefix cs ds

unfoldable pub contains_codes : List ℕ → List ℕ → Bool
unfolding has_prefix
contains_codes [] ds = has_prefix [] ds
contains_codes (c ∷ cs) ds = has_prefix (c ∷ cs) ds || contains_codes cs ds

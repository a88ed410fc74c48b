-- ===== src/Parse/Versions.antt =====
-- `betterDotted`, `maxDottedVersion` and `dotnetFrameworkName`, on texts of code points.
use sopdet.Prelude.{
  ℕ, Bool, true, false, not, Option, none, some, List, [], ◌∷◌, ltb, leb, ◌==◌, if◌then◌else◌,
  String,
}
use sopdet.Prelude.Text.{same_codes}
use sopdet.Parse.Text.{Text, is_blank, split_on}
use sopdet.Parse.Number.{ℤ, pos, negsuc, atoi}

-- `>` on Go's `int`.
unfoldable pub gt_int : ℤ → ℤ → Bool
gt_int (pos m) (pos n) = ltb n m
gt_int (pos m) (negsuc n) = true
gt_int (negsuc m) (pos n) = false
gt_int (negsuc m) (negsuc n) = ltb m n

-- `>` on strings, by bytes, which is the order of the code points.
unfoldable pub gt_text : Text → Text → Bool
gt_text [] t = false
gt_text (c ∷ cs) [] = true
gt_text (c ∷ cs) (d ∷ ds) = let rest = gt_text cs ds in if c == d then rest else ltb d c

-- What one round of the loop decides of two parts: that the first or the second is better, or nothing.
unfoldable pub part_order : Text → Text → Option Bool
unfolding gt_text gt_int
part_order a b =
    let texts = if same_codes a b then none else some (gt_text a b) in
    elim (atoi a) [
      | none ↦ texts
      | some m ↦ elim (atoi b) [
        | none ↦ texts
        | some n ↦ if gt_int m n then some true else if gt_int n m then some false else none
      ]
    ]

-- The loop over the parts, and the test of their numbers behind it.
unfoldable pub better_parts : List Text → List Text → Bool
unfolding part_order
better_parts [] bs = false
better_parts (a ∷ as₁) [] = true
better_parts (a ∷ as₁) (b ∷ bs) =
    let rest = better_parts as₁ bs in elim (part_order a b) [ none ↦ rest | some better ↦ better ]

abbrev pub parts : Text → List Text
parts v = split_on (λ c. c == 46) v

unfoldable pub better_dotted : Text → Text → Bool
unfolding better_parts
better_dotted a b = if is_blank b then not (is_blank a) else better_parts (parts a) (parts b)

unfoldable pub max_from : Text → List Text → Text
unfolding better_dotted
max_from best [] = best
max_from best (v ∷ vs) = max_from (if better_dotted v best then v else best) vs

unfoldable pub max_dotted_version : List Text → Text
unfolding max_from
max_dotted_version vs = max_from [] vs

-- `dotnetFrameworkName`; a negative release gives the empty name, as 0 does.
unfoldable pub dotnet_framework_name : ℕ → String
dotnet_framework_name release =
    if leb 533320 release
    then "4.8.1"
    else if leb 528040 release
    then "4.8"
    else if leb 461808 release
    then "4.7.2"
    else if leb 461308 release
    then "4.7.1"
    else if leb 460798 release
    then "4.7"
    else if leb 394802 release
    then "4.6.2"
    else if leb 394254 release
    then "4.6.1"
    else if leb 393295 release
    then "4.6"
    else if leb 379893 release
    then "4.5.2"
    else if leb 378675 release
    then "4.5.1"
    else if leb 378389 release
    then "4.5"
    else ""

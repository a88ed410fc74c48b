-- ===== src/Parse/Software.antt =====
-- internal/collect/linux.go: the installed software and the users of a Linux host. What a scanner, a command or a
-- directory yields is a parameter: the lines or texts, beside the error that ends them.
use sopdet.Prelude.{
  String, not, ◌||◌, ◌&&◌, ◌≡◌, ◌⊎◌, inl, inr, refl, Option, none, some, List, [], ◌∷◌, ◌++◌, ◌<>◌,
  ◌==◌, ltb, if◌then◌else◌, length,
}
use sopdet.Prelude.Text.{codes, trim_space}
use sopdet.Parse.Text.{
  Text, is_blank, is_word, holds, nth, lines, split_on, cut_colon, Table, put, at,
}

-- What a source returns, beside its error: whether the source is missing on this host, or its message.
pub data Failure : Type 0 where
  absent : Failure
  failed : String → Failure

abbrev pub Found : Type 0
Found = List Table × Option Failure

abbrev entry : String → Text → Text × Text
entry k v = (codes k, v)

-- The parts joined by bars.
abbrev key_of : String → Text → Text → Text
key_of format name version = codes format ++ (codes "|" ++ (name ++ (codes "|" ++ version)))

abbrev common : String → String → Table
common format source =
    entry "format" (codes format)
    ∷ entry "source" (codes source)
    ∷ entry "scope" (codes "machine")
    ∷ []

-- `flush` of `collectDpkg`, as the packages of a stanza.
unfoldable pub dpkg_stanza : Table → List Table
dpkg_stanza m =
    let name = at (codes "Package") m in
    let version = at (codes "Version") m in
    if not (is_blank name) && holds (at (codes "Status") m) "installed"
    then (entry "key" (key_of "deb" name version)
        ∷ entry "name" name
        ∷ entry "version" version
        ∷ entry "vendor" (at (codes "Maintainer") m)
        ∷ entry "architecture" (at (codes "Architecture") m)
        ∷ common "deb" "dpkg")
      ∷ []
    else []

-- The loop over the scanned lines, with the variable `fields`.
unfoldable pub dpkg_lines : Table → List Text → List Table
unfolding dpkg_stanza
dpkg_lines m [] = dpkg_stanza m
dpkg_lines m (l ∷ ls) =
    let fields = if is_blank l then [] else elim (cut_colon l) [
      | none ↦ m
      | some kv ↦ put (trim_space (kv.0)) (trim_space (kv.1)) m
    ] in
    let rest = dpkg_lines fields ls in if is_blank l then dpkg_stanza m ++ rest else rest

-- `collectDpkg`, `collectApk`: a file that does not open, or the scanned lines and the error of the scanner.
unfoldable pub collect_dpkg : Failure ⊎ (List Text × Option Failure) → Found
unfolding dpkg_lines
collect_dpkg (inl e) = ([], some e)
collect_dpkg (inr (ls, e)) = (dpkg_lines [] ls, e)

unfoldable pub apk_stanza : Table → List Table
apk_stanza m =
    let name = at (codes "P") m in
    let version = at (codes "V") m in
    if not (is_blank name)
    then (entry "key" (key_of "apk" name version)
        ∷ entry "name" name
        ∷ entry "version" version
        ∷ entry "architecture" (at (codes "A") m)
        ∷ common "apk" "apk")
      ∷ []
    else []

unfoldable pub apk_lines : Table → List Text → List Table
unfolding apk_stanza
apk_lines m [] = apk_stanza m
apk_lines m (l ∷ ls) =
    let fields =
      if is_blank l then [] else elim (cut_colon l) [ none ↦ m | some kv ↦ put (kv.0) (kv.1) m ] in
    let rest = apk_lines fields ls in if is_blank l then apk_stanza m ++ rest else rest

unfoldable pub collect_apk : Failure ⊎ (List Text × Option Failure) → Found
unfolding apk_lines
collect_apk (inl e) = ([], some e)
collect_apk (inr (ls, e)) = (apk_lines [] ls, e)

abbrev bars : Text → List Text
bars l = split_on (λ c. c == 124) l

unfoldable pub rpm_lines : List Text → List Table
rpm_lines [] = []
rpm_lines (l ∷ ls) =
    let p = bars l in
    let rest = rpm_lines ls in
    if ltb (length p) 4 || is_blank (nth 0 p)
    then rest
    else (entry "key" (key_of "rpm" (nth 0 p) (nth 1 p))
        ∷ entry "name" (nth 0 p)
        ∷ entry "version" (nth 1 p)
        ∷ entry "vendor" (nth 2 p)
        ∷ entry "architecture" (nth 3 p)
        ∷ common "rpm" "rpm")
      ∷ rest

-- `collectRPM`
unfoldable pub collect_rpm : Failure ⊎ Text → Found
unfolding rpm_lines
collect_rpm (inl e) = ([], some e)
collect_rpm (inr out) = (rpm_lines (lines out), none)

-- The loop over the lines of a description, with the variables `name` and `version`.
unfoldable pub desc_lines : Text → Text → List Text → Text × Text
desc_lines name version [] = (name, version)
desc_lines name version (l ∷ ls) =
    let name₁ = if is_word l "%NAME%" && not (is_blank ls) then nth 0 ls else name in
    let version₁ =
      if (is_word l "%VERSION%" || is_word l "%BASE%") && not (is_blank ls) && is_blank version
      then nth 0 ls
      else version in
    desc_lines name₁ version₁ ls

unfoldable pub pacman_package : Text → List Table
unfolding desc_lines
pacman_package desc =
    let (name, version) = desc_lines [] [] (lines desc) in
    if is_blank desc || is_blank name
    then []
    else (entry "key" (key_of "pacman" name version)
        ∷ entry "name" name
        ∷ entry "version" version
        ∷ common "pkg" "pacman")
      ∷ []

-- The loop over the directory, of which each entry gives its trimmed description or the message of an error, with the
-- variables `recs` and `readErrors`.
unfoldable pub pacman_entries : List (String ⊎ Text) → List Table × List String
unfolding pacman_package
pacman_entries [] = ([], [])
pacman_entries (inl e ∷ es) = let rest = pacman_entries es in (rest.0, e ∷ rest.1)
pacman_entries (inr desc ∷ es) =
    let rest = pacman_entries es in (pacman_package desc ++ rest.0, rest.1)

-- The message of the joined errors, as `errors.Join` documents it: one on a line.
unfoldable pub joined : List String → Option Failure
joined [] = none
joined (e ∷ es) = elim (joined es) [
  | none ↦ some (failed e)
  | some more ↦ elim more [
    | absent ↦ some (failed e)
    | failed message ↦ some (failed (e <> ("\n" <> message)))
  ]
]

-- `collectPacman`
unfoldable pub collect_pacman : Failure ⊎ List (String ⊎ Text) → Found
unfolding pacman_entries joined
collect_pacman (inl e) = ([], some e)
collect_pacman (inr es) = let found = pacman_entries es in (found.0, joined (found.1))

-- The loop of `collectLinuxSoftware`, with the variables `partial` and `sourceErrors`.
unfoldable pub software_from :
    List Table → List String → List (String × Found) → List Table × List String
software_from partial errors [] = (partial, errors)
software_from partial errors ((name, (recs, e)) ∷ sources) =
    let later = software_from partial errors sources in
    elim e [
      | none ↦ if is_blank recs then later else (recs, [])
      | some why ↦ elim why [
        | absent ↦ later
        | failed message ↦
            software_from (partial ++ recs) (errors ++ ((name <> (" inventory: " <> message)) ∷ []))
              sources
      ]
    ]

unfoldable pub collect_linux_software : List (String × Found) → List Table × List String
unfolding software_from
collect_linux_software sources = software_from [] [] sources

-- A source that has packages and no error, of the sources.
abbrev pub Yields : List Table → List (String × Found) → Type 0
Yields recs [] = ⊥
Yields recs (source ∷ sources) =
    (((source.1).0 ≡ recs) × ((source.1).1 ≡ none)) ⊎ Yields recs sources

not_blank : (errors : List String) (message : String) → errors ++ (message ∷ []) ≡ [] → ⊥
not_blank [] message h = cc
not_blank (e ∷ errors) message h = cc

-- What the sources come to: all of one source and no error, or nothing but parts of sources that failed.
abbrev pub Settled :
    List Table → List String → List (String × Found) → List Table × List String → Type 0
Settled partial errors sources r =
    (Yields (r.0) sources × (r.1 ≡ [])) ⊎ ((r.1 ≡ []) → (r.0 ≡ partial) × (errors ≡ []))

software_from-Settled :
    (partial : List Table) (errors : List String) (sources : List (String × Found))
    → Settled partial errors sources (software_from partial errors sources)
unfolding software_from
software_from-Settled partial errors [] = inr (λ h. (refl, h))
software_from-Settled partial errors ((name, ([], none)) ∷ sources) =
    elim (software_from-Settled partial errors sources) [
      | inl (y, e) ↦ inl (inr y, e)
      | inr h ↦ inr h
    ]
software_from-Settled partial errors ((name, (r ∷ recs, none)) ∷ sources) =
    inl (inl (refl, refl), refl)
software_from-Settled partial errors ((name, (recs, some absent)) ∷ sources) =
    elim (software_from-Settled partial errors sources) [
      | inl (y, e) ↦ inl (inr y, e)
      | inr h ↦ inr h
    ]
software_from-Settled partial errors ((name, (recs, some (failed message))) ∷ sources) =
    elim (software_from-Settled (partial ++ recs)
      (errors ++ ((name <> (" inventory: " <> message)) ∷ [])) sources) [
        | inl (y, e) ↦ inl (inr y, e)
        | inr h ↦
            inr (λ k. absurd (not_blank errors (name <> (" inventory: " <> message)) ((h k).1)))
      ]

-- If the software collector reports no error, what it returns is all that one of the sources has, which did not fail
-- either, or it is nothing.
pub collect_linux_software-Yields :
    (sources : List (String × Found))
    → (collect_linux_software sources).1 ≡ []
    → Yields ((collect_linux_software sources).0) sources
      ⊎ ((collect_linux_software sources).0 ≡ [])
unfolding collect_linux_software
collect_linux_software-Yields sources fine = elim (software_from-Settled [] [] sources) [
  | inl (y, e) ↦ inl y
  | inr h ↦ inr ((h fine).0)
]

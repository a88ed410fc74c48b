-- ===== src/Ingest/Drained.antt =====
-- What the drain of the spool does with the files that wait there.
use mathlib.Core.Path.{subst}
use sopdet.Prelude.{
  String, ◌≡◌, ap, ◌⊎◌, inl, inr, Bool, true, false, some, List, [], ◌∷◌, ◌=ˢ◌, eq_iff, arith,
  Bool-cases, Option-cases, keep, if◌then◌else◌,
}
use sopdet.Prelude.GoMap.{lookup, remove, keys, lookup-insert, lookup-remove}
use sopdet.Prelude.Sort.{sort_texts}
use sopdet.Ingest.World.{World, Files, Host, Options, is_json, post, drain_file, drain_files, drain}
use sopdet.Ingest.Post.{Holds, post-keeps}
use sopdet.Ingest.Delivery.{file_at}

module _ (host : Host) (o : Options) (name content : String) where
  -- The server has the content, or the file of this name in the spool has.
  abbrev pub IsSafe : World → Type 0
  IsSafe w = Holds content w.received ⊎ (file_at host o name w ≡ some content)

  -- The files of a directory after the removal of one, whether or not it succeeds.
  kept_file :
      (n : String) (files : Files)
      → lookup name files ≡ some content
      → (n =ˢ name) ≡ false
      → lookup name (if host.can_remove n then remove n files else files) ≡ some content
  kept_file n files h other = ground (arith, h, other, lookup-remove n name files, eq_iff n name)

  same_content :
      (n : String) (files : Files) (w : World) (sent : String)
      → lookup o.spool_dir w.dirs ≡ some files
      → file_at host o name w ≡ some content
      → lookup n files ≡ some sent
      → (n =ˢ name) ≡ true
      → sent ≡ content
  same_content n files w sent at there found same =
      let e : n ≡ name = ground (arith, same, eq_iff n name) in
      ground (arith, at, there, found, ap (λ i. lookup i files) e)

  drain_file-IsSafe :
      (n : String) (files : Files) (w : World)
      → lookup o.spool_dir w.dirs ≡ some files
      → IsSafe w
      → IsSafe (drain_file host o n files w).1
  unfolding drain_file
  drain_file-IsSafe n files w at safe = elim (Option-cases (lookup n files)) [
    | inl gone ↦ rw (drain_file, gone) safe
    | inr (sent, found) ↦
        let k = post-keeps host o sent w in
        elim (Bool-cases (post host o sent w).0) [
          | inr lost ↦
              rw (drain_file, found, lost)
                (elim safe [
                  | inl got ↦ inl (k.keeps content got)
                  | inr there ↦ inr (ground (arith, k.dirs, there))
                ])
          | inl done ↦
              rw (drain_file, found, done)
                (elim safe [
                  | inl got ↦ inl (k.keeps content got)
                  | inr there ↦ elim (Bool-cases (n =ˢ name)) [
                    | inl same ↦ inl (
                        subst (λ c. Holds c (post host o sent w).1.received)
                          (same_content n files w sent at there found same) (k.gains done))
                    | inr other ↦ inr (
                        ground (
                          arith,
                          lookup-insert o.spool_dir o.spool_dir
                              (if host.can_remove n then remove n files else files)
                              (post host o sent w).1.dirs,
                          eq_iff o.spool_dir o.spool_dir,
                          kept_file n files (ground (arith, at, there)) other,
                        ))
                  ]
                ])
        ]
  ]

  drain_files-IsSafe :
      (flag : Bool) (names : List String) (w : World)
      → IsSafe w
      → IsSafe (drain_files host o flag names w).1
  unfolding drain_files
  drain_files-IsSafe flag [] w safe = safe
  drain_files-IsSafe flag (n ∷ names) w safe = elim (Option-cases (lookup o.spool_dir w.dirs)) [
    | inl gone ↦ rw (drain_files, gone) (drain_files-IsSafe false names w safe)
    | inr (files, at) ↦ elim (Bool-cases (host.can_read n)) [
      | inl can ↦
          rw (drain_files, at, can)
            (drain_files-IsSafe _ names _ (drain_file-IsSafe n files w at safe))
      | inr cannot ↦ rw (drain_files, at, cannot) (drain_files-IsSafe false names w safe)
    ]
  ]

  -- The drain of the spool loses nothing: a content that the server has, or that a file of the spool has, is with the
  -- server or in that file afterwards, whatever is read, delivered or removed.
  pub drain-IsSafe : (w : World) → IsSafe w → IsSafe (drain host o w).1
  unfolding drain
  drain-IsSafe w safe = elim (Bool-cases (o.spool_dir =ˢ "")) [
    | inl blank ↦ rw (drain, blank) safe
    | inr set ↦ elim (Option-cases (lookup o.spool_dir w.dirs)) [
      | inl gone ↦ rw (drain, set, gone) safe
      | inr (files, at) ↦
          rw (drain, set, at)
            (drain_files-IsSafe true (keep (is_json host o) (sort_texts (keys files))) w safe)
    ]
  ]

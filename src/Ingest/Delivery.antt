-- ===== src/Ingest/Delivery.antt =====
-- What `Send` guarantees of the payloads: each is received by the server or kept in the spool.
use text.Mathlib.TextLemmas.{append_cancel_left, append_cancel_right}
use sopdet.Prelude.{
  Option-cases, inl, inr, ℕ, String, ◌<>◌, ◌≡◌, ◌≢◌, ap, Option, none, some, [], arith, ◌=ˢ◌,
  eq_iff, if◌then◌else◌, ◌⊎◌,
}
use sopdet.Prelude.GoMap.{GoMap, lookup, insert, lookup-insert}
use sopdet.Prelude.Decimal.{itoa, itoa-injective}
use sopdet.Prelude.Outcome.{ok}
use sopdet.Ingest.World.{World, Files, Host, Options, post, spool_name, spool}
use sopdet.Ingest.Post.{Holds, post-keeps}

-- The content of a file of a directory.
abbrev file_in : String → String → GoMap Files → Option String
file_in dir name dirs = elim (lookup dir dirs) [ none ↦ none | some files ↦ lookup name files ]

file_in-insert :
    (dir name other content : String) (files : Files) (dirs : GoMap Files)
    → file_in dir other (insert dir (insert name content files) dirs)
      ≡ (if name =ˢ other then some content else lookup other files)
file_in-insert dir name other content files dirs = ground (
  arith,
  lookup-insert dir dir (insert name content files) dirs,
  eq_iff dir dir,
  lookup-insert name other content files,
)

file_in-made :
    (dir other : String) (files : Files) (dirs : GoMap Files)
    → file_in dir other (insert dir files dirs) ≡ lookup other files
file_in-made dir other files dirs = ground (arith, lookup-insert dir dir files dirs, eq_iff dir dir)

module _ (host : Host) (o : Options) where
  -- The content of a file of the spool directory.
  abbrev pub file_at : String → World → Option String
  file_at name w = file_in o.spool_dir name w.dirs

  spool_name-injective : (i j : ℕ) → spool_name host o i ≡ spool_name host o j → i ≡ j
  spool_name-injective i j e = itoa-injective i j (
      append_cancel_right (itoa i) (itoa j) ".json" (
        append_cancel_left "-" (itoa i <> ".json") (itoa j <> ".json") (
          append_cancel_left o.scan_id ("-" <> (itoa i <> ".json")) ("-" <> (itoa j <> ".json"))
            e)))

  -- A request is with the server, or in the spool under its index.
  abbrev pub Kept : ℕ → String → World → Type 0
  Kept i req w = Holds req w.received ⊎ (file_at (spool_name host o i) w ≡ some req)

  pub post-file_at :
      (name payload : String) (w : World) → file_at name (post host o payload w).1 ≡ file_at name w
  post-file_at name payload w = ap (file_in o.spool_dir name) ((post-keeps host o payload w).dirs)

  pub spool-received :
      (i : ℕ) (payload : String) (w : World) → (spool host o i payload w).1.received ≡ w.received
  unfolding spool
  spool-received i payload w = ground arith

  files_at : World → Files
  files_at w = elim (lookup o.spool_dir w.dirs) [ none ↦ [] | some f ↦ f ]

  lookup-files_at : (name : String) (w : World) → lookup name (files_at w) ≡ file_at name w
  unfolding files_at lookup
  lookup-files_at name w = ground arith

  pub spool-file_at_self :
      (i : ℕ) (payload : String) (w : World)
      → o.spool_dir ≢ ""
      → (spool host o i payload w).0 ≡ ok tt
      → file_at (spool_name host o i) (spool host o i payload w).1 ≡ some payload
  unfolding spool files_at
  spool-file_at_self i payload w h k =
      let name = spool_name host o i in
      ground (
        arith,
        file_in-insert o.spool_dir name name payload (files_at w) w.dirs,
        eq_iff o.spool_dir "",
        eq_iff name name,
      )

  pub spool-file_at :
      (i j : ℕ) (payload : String) (w : World)
      → i ≢ j
      → file_at (spool_name host o j) (spool host o i payload w).1 ≡ file_at (spool_name host o j) w
  unfolding spool files_at
  spool-file_at i j payload w h =
      let name = spool_name host o i in
      let other = spool_name host o j in
      elim (Option-cases host.torn_write) [
        | inl kept ↦ ground (
          arith,
          kept,
          file_in-insert o.spool_dir name other payload (files_at w) w.dirs,
          file_in-made o.spool_dir other (files_at w) w.dirs,
          eq_iff name other,
          lookup-files_at other w,
          spool_name-injective i j,
        )
        | inr (part, torn) ↦ ground (
          arith,
          torn,
          file_in-insert o.spool_dir name other payload (files_at w) w.dirs,
          file_in-insert o.spool_dir name other part (files_at w) w.dirs,
          file_in-made o.spool_dir other (files_at w) w.dirs,
          eq_iff name other,
          lookup-files_at other w,
          spool_name-injective i j,
        )
      ]

-- ===== src/Agent/Client/Fence.antt =====
-- What the spool holds of a job after the server has fenced it.
use sopdet.Prelude.{
  String, ◌≡◌, ◌≢◌, refl, true, false, Option, none, some, List, [], ◌∷◌, keep, All, arith, ◌=ˢ◌,
  eq_iff, if◌then◌else◌, Bool-cases, inl, inr,
}
use sopdet.Prelude.GoMap.{GoMap, lookup-remove, keys}
use sopdet.Prelude.Sort.{sort_texts}
use sopdet.Agent.Client.Post.{World, File, Client}
use sopdet.Agent.Client.Spool.{
  Disk, remove_file, read_spool_record, is_json, of_job, drop_names, drop_spooled_for_job,
}

-- The file of this name, if there is one, does not hold a record of the job.
abbrev pub IsDropped : String → World → String → Type 0
IsDropped job w name = of_job job (read_spool_record name w) ≡ false

module _ (disk : Disk) (job : String) where
  remove_file-IsDropped :
      (name other : String) (w : World)
      → IsDropped job w other
      → IsDropped job (remove_file disk name w) other
  unfolding remove_file read_spool_record
  remove_file-IsDropped name other w h = from w.spool_files refl
    where
      from :
          (o : Option (GoMap File))
          → w.spool_files ≡ o
          → IsDropped job (remove_file disk name w) other
      from none e = ground (arith, e, h)
      from (some files) e = ground (arith, e, h, lookup-remove name other files)

  removed-IsDropped :
      (name : String) (w : World)
      → disk.can_remove name ≡ true
      → IsDropped job (remove_file disk name w) name
  unfolding remove_file read_spool_record
  removed-IsDropped name w can = from w.spool_files refl
    where
      from :
          (o : Option (GoMap File))
          → w.spool_files ≡ o
          → IsDropped job (remove_file disk name w) name
      from none e = ground (arith, e, can)
      from (some files) e = ground (arith, e, can, lookup-remove name name files, eq_iff name name)

  -- One round of the loop.
  drop_one : String → World → World
  drop_one name w = if of_job job (read_spool_record name w) then remove_file disk name w else w

  drop_one-IsDropped :
      (name other : String) (w : World)
      → IsDropped job w other
      → IsDropped job (drop_one name w) other
  unfolding drop_one
  drop_one-IsDropped name other w h = elim (Bool-cases (of_job job (read_spool_record name w))) [
    | inl e ↦ rw e (remove_file-IsDropped name other w h)
    | inr e ↦ rw e h
  ]

  drop_one-IsDropped_self :
      (name : String) (w : World)
      → disk.can_remove name ≡ true
      → IsDropped job (drop_one name w) name
  unfolding drop_one
  drop_one-IsDropped_self name w can = elim (Bool-cases (of_job job (read_spool_record name w))) [
    | inl e ↦ rw e (removed-IsDropped name w can)
    | inr e ↦ rw e e
  ]

  drop_names_keeps :
      (names : List String) (other : String) (w : World)
      → IsDropped job w other
      → IsDropped job (drop_names disk job names w) other
  unfolding drop_names drop_one
  drop_names_keeps [] other w h = h
  drop_names_keeps (name ∷ names) other w h =
      drop_names_keeps names other (drop_one name w) (drop_one-IsDropped name other w h)

  drop_names-IsDropped :
      (names : List String) (w : World)
      → ((name : String) → disk.can_remove name ≡ true)
      → All (IsDropped job (drop_names disk job names w)) names
  unfolding drop_names drop_one
  drop_names-IsDropped [] w can = tt
  drop_names-IsDropped (name ∷ names) w can = (
    drop_names_keeps names name (drop_one name w) (drop_one-IsDropped_self name w (can name)),
    drop_names-IsDropped names (drop_one name w) can,
  )

  -- After `drop_spooled_for_job`, no JSON file that the spool directory had holds a record of the job, if
  -- the client has a spool directory and files can be removed.
  pub drop_spooled_for_job-IsDropped :
      (c : Client) (w : World) (files : GoMap File)
      → c.spool_dir ≢ ""
      → w.spool_files ≡ some files
      → ((name : String) → disk.can_remove name ≡ true)
      → All
          (IsDropped job (drop_spooled_for_job disk c job w))
          (keep is_json (sort_texts (keys files)))
  unfolding drop_spooled_for_job
  drop_spooled_for_job-IsDropped c w files named e can =
      let set : (c.spool_dir =ˢ "") ≡ false = ground (arith, named, eq_iff c.spool_dir "") in
      rw (set, e) (drop_names-IsDropped (keep is_json (sort_texts (keys files))) w can)

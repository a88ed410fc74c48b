-- ===== src/Tests/Records.antt =====
-- Collections, fingerprints, deltas and configurations at concrete inputs.
use sopdet.Prelude.{
  ℕ, String, ◌≡◌, refl, ap, true, false, Option, none, some, List, [], ◌∷◌, map, All, Distinct,
  arith, eq_iff,
}
use sopdet.Prelude.GoMap.{GoMap, lookup}
use sopdet.Schema.Types.{str, number, Record, text_field, EntityCollection}
use sopdet.Schema.Fingerprint.{
  Encoder, json, IsCanonical, is_volatile, fingerprint, fingerprint_ignores_volatile,
}
use sopdet.Schema.Entity.{build_entity}
use sopdet.Schema.Keys.{IsPlain, build_entity-Distinct, build_entity_repeats}
use sopdet.Collect.Defs.{Collector, Session, run_plan}
use sopdet.Collect.Laws.{IsAccounted, IsBounded, run_plan-IsAccounted, run_plan-IsBounded}
use sopdet.State.Delta.{Fingerprints, index_prints, delta_of}
use sopdet.State.Patch.{apply_delta, apply_delta-delta_of}

-- A marshaller that writes the name of a record, and a hash that keeps its text.
abbrev encoder : Encoder
encoder = record {
  marshal_record = λ r. json (text_field "name" r);
  marshal_rollup = λ n l. json "rollup";
  sha256_hex = λ s. s;
}

encoder-IsCanonical : IsCanonical encoder
unfolding text_field
encoder-IsCanonical = record { same_entries = λ a b same. rw (same "name") refl }

abbrev disk_full : Record
disk_full = ("key", str "c:") ∷ ("name", str "system") ∷ ("free_bytes", number "1") ∷ []

abbrev disk_free : Record
disk_free = ("free_bytes", number "2") ∷ ("name", str "system") ∷ ("key", str "c:") ∷ []

free_volatile : is_volatile "free_bytes" ≡ true
unfolding is_volatile
free_volatile = refl

same_disk : (k : String) → is_volatile k ≡ false → lookup k disk_full ≡ lookup k disk_free
unfolding lookup
same_disk k h = ground (
  arith,
  h,
  eq_iff "key" k,
  eq_iff "name" k,
  eq_iff "free_bytes" k,
  eq_iff "key" "name",
  free_volatile,
  ap is_volatile {x = "free_bytes"} {y = k},
)

fingerprint_ignores_volatile_example : fingerprint encoder disk_full ≡ fingerprint encoder disk_free
fingerprint_ignores_volatile_example =
    fingerprint_ignores_volatile encoder encoder-IsCanonical disk_full disk_free same_disk

abbrev two_disks : List (Option Record)
two_disks = some disk_full ∷ none ∷ some disk_free ∷ []

two_disks-IsPlain : All IsPlain two_disks
unfolding text_field lookup
two_disks-IsPlain = (refl, (tt, (refl, tt)))

build_entity-Distinct_example :
    Distinct (map (text_field "key") (build_entity encoder "now" two_disks).records)
build_entity-Distinct_example = build_entity-Distinct encoder "now" two_disks two_disks-IsPlain

abbrev disk_numbered : Record
disk_numbered = ("key", str "c:#2") ∷ []

build_entity_repeats_example :
    map
      (text_field "key")
      (build_entity encoder "now"
        (some disk_full ∷ some disk_free ∷ some disk_numbered ∷ [])).records
    ≡ "c:" ∷ "c:#2" ∷ "c:#2" ∷ []
unfolding text_field lookup
build_entity_repeats_example =
    build_entity_repeats encoder "now" "c:" disk_full disk_free disk_numbered
      (λ h. ground (arith, eq_iff "c:" "", h)) refl refl refl

abbrev present : List Record
present =
    (("key", str "a") ∷ ("fingerprint", str "1") ∷ [])
    ∷ (("key", str "b") ∷ ("fingerprint", str "2") ∷ [])
    ∷ []

abbrev before : Fingerprints
before = ("a", "0") ∷ ("c", "3") ∷ []

apply_delta-delta_of_example :
    lookup "c" (apply_delta (delta_of present before) before) ≡ lookup "c" (index_prints [] present)
apply_delta-delta_of_example = apply_delta-delta_of present before "c"

abbrev scan : GoMap EntityCollection
scan =
    (
      "disks",
      record { count = 2; fingerprint = "f"; records = present; summarized = false; omitted = 0 },
    )
    ∷ []

abbrev session : Session
session = record { max_list_items = 1; include_appx = false; include_processes = true }

-- A collector that fails with one record of two, and one that only fails.
abbrev collectors : List Collector
collectors =
    record {
      name = "disks";
      level = 0;
      records = two_disks;
      failure = some "Access is denied";
      duration_ms = 3;
    }
    ∷ record { name = "users"; level = 1; records = []; failure = some "timeout"; duration_ms = 1 }
    ∷ []

abbrev lower : ℕ → ℕ
lower c = c

run_plan-IsAccounted_example :
    All (λ c. IsAccounted c.name (run_plan encoder lower "now" session collectors)) collectors
run_plan-IsAccounted_example = run_plan-IsAccounted encoder lower "now" session collectors

run_plan-IsBounded_example :
    All
      (IsBounded encoder lower "now" session)
      (run_plan encoder lower "now" session collectors).entities
run_plan-IsBounded_example = run_plan-IsBounded encoder lower "now" session collectors (omega arith)

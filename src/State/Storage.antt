-- ===== src/State/Storage.antt =====
-- internal/state/state.go: `Load`, `Save` and `AsMaps`. The text of a file stands for what encoding/json makes
-- of it.
use sopdet.Prelude.{String, Bool, Option, none, some, [], not, ◌=ˢ◌, if◌then◌else◌}
use sopdet.Prelude.GoMap.{GoMap}
use sopdet.Prelude.Outcome.{Outcome, ok, err}
use sopdet.State.Delta.{State, Fingerprints}

-- What is at a path; `null` is the JSON null and leaves the zero state, as any document without fields does.
pub data StateFile : Type 0 where
  missing unreadable empty garbled : StateFile
  document : State → StateFile

-- The file at the state path, the temporary file beside it, and which operations succeed. A write that
-- fails leaves the temporary file as it was.
pub record Storage : Type 0 where
  pub file : StateFile
  pub temporary : StateFile

pub record Permits : Type 0 where
  pub can_make_dir : Bool
  pub can_write : Bool
  pub can_rename : Bool

unfoldable pub load : String → Storage → Outcome (Option State)
load path s = if path =ˢ "" then ok none else elim s.file [
  | missing ↦ ok none
  | unreadable ↦ err "read"
  | empty ↦ ok none
  | garbled ↦ err "json"
  | document st ↦ ok (some st)
]

unfoldable pub save : Permits → String → State → Storage → Outcome (Unit {0}) × Storage
save permits path st s =
    if path =ˢ ""
    then (ok tt, s)
    else if not permits.can_make_dir
    then (err "mkdir", s)
    else if not permits.can_write
    then (err "write", s)
    else if not permits.can_rename
    then (err "rename", record s { temporary = document st })
    else (ok tt, record { file = document st; temporary = missing })

abbrev pub as_maps : Option State → GoMap Fingerprints
as_maps none = []
as_maps (some st) = st.entities

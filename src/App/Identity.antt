-- ===== src/App/Identity.antt =====
-- internal/app/run.go: `buildIdentity` and `instanceID`. What the platform says of the host, the file system,
-- `strings.TrimSpace` and `uuid.NewString` are parameters.
use sopdet.Prelude.{
  String, ◌≡◌, ◌≢◌, ap, Bool-cases, Bool, false, Option, none, some, not, ◌=ˢ◌, eq_iff,
  if◌then◌else◌, arith, inl, inr,
}
use sopdet.Prelude.Outcome.{Outcome, ok, err}
use sopdet.Schema.Types.{HostIdentifier}

pub record Platform : Type 0 where
  pub hostname : String
  pub machine_guid : Option String
  pub hardware_uuid : Option String
  pub elevated : Bool
  -- `strings.TrimSpace`, and the next `uuid.NewString`
  pub trim_space : String → String
  pub new_uuid : String
  pub can_make_dir : Bool
  pub can_write : Bool

-- The instance file is its text, or none where it cannot be read.
unfoldable pub instance_id : Platform → Option String → Outcome String × Option String
instance_id p file =
    let made : Outcome String × Option String =
      if not p.can_make_dir
      then (err "mkdir", file)
      else if not p.can_write
      then (err "write", file)
      else (ok p.new_uuid, some p.new_uuid) in
    elim file [
      | none ↦ made
      | some text ↦ if p.trim_space text =ˢ "" then made else (ok (p.trim_space text), some text)
    ]

abbrev pub is_set : Option String → Bool
is_set none = false
is_set (some s) = not (s =ˢ "")

abbrev pub or_blank : Option String → String
or_blank none = ""
or_blank (some s) = s

-- The `switch` that chooses the device id and its source.
unfoldable pub choose_id : Option String → Option String → String → String × String
choose_id guid hw instance_text =
    if is_set guid
    then (or_blank guid, "machine_guid")
    else if is_set hw
    then (or_blank hw, "smbios_uuid")
    else (instance_text, "instance")

unfoldable pub build_identity : Platform → Option String → Outcome HostIdentifier × Option String
unfolding instance_id choose_id
build_identity p file =
    let (found, file') = instance_id p file in
    elim found [
      | err e ↦ (err e, file')
      | ok instance_text ↦
          let (device_id, source) = choose_id p.machine_guid p.hardware_uuid instance_text in
          (
            ok (record {
              device_id = device_id;
              device_id_source = source;
              hardware_uuid = p.hardware_uuid;
              machine_guid = p.machine_guid;
              instance_id = instance_text;
              hostname = p.hostname;
              fqdn = some p.hostname;
            }),
            file',
          )
    ]

-- What is known of the parameters: a UUID is not blank and has no space around it.
pub record IsPlatform (p : Platform) : Type 0 where
  pub uuid_set : p.new_uuid ≢ ""
  pub uuid_trimmed : p.trim_space p.new_uuid ≡ p.new_uuid

-- The file that holds a new UUID gives it back.
fresh_again :
    (p q : Platform)
    → IsPlatform p
    → q.trim_space ≡ p.trim_space
    → instance_id q (some p.new_uuid) ≡ (ok p.new_uuid, some p.new_uuid)
unfolding instance_id
fresh_again p q known same =
    ground
      (arith, known.uuid_set, known.uuid_trimmed, ap (λ t. t p.new_uuid) same, eq_iff p.new_uuid "")

-- The instance id of a run is found again by the next one, which leaves the file as it is, whatever its own
-- next UUID is, if a UUID is neither blank nor changed by trimming.
pub instance_id_again :
    (p q : Platform) (file file' : Option String) (id : String)
    → IsPlatform p
    → q.trim_space ≡ p.trim_space
    → instance_id p file ≡ (ok id, file')
    → instance_id q file' ≡ (ok id, file')
unfolding instance_id
instance_id_again p q none file' id known same h =
    let f : file' ≡ some p.new_uuid = ground (arith, h) in
    let i : id ≡ p.new_uuid = ground (arith, h) in rw (f, i) (fresh_again p q known same)
instance_id_again p q (some text) file' id known same h =
    elim (Bool-cases (p.trim_space text =ˢ "")) [
      | inl blank ↦
          let f : file' ≡ some p.new_uuid = ground (arith, h, blank) in
          let i : id ≡ p.new_uuid = ground (arith, h, blank) in
          rw (f, i) (fresh_again p q known same)
      | inr set ↦
          let f : file' ≡ some text = ground (arith, h, set) in
          let i : id ≡ p.trim_space text = ground (arith, h, set) in
          rw (f, i) (ground (arith, set, ap (λ t. t text) same))
    ]

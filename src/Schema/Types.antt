-- ===== src/Schema/Types.antt =====
-- internal/schema/inventory.go: the types of the envelope (contract v2).
use sopdet.Prelude.{ℕ, String, Bool, Option, none, some, List}
use sopdet.Prelude.GoMap.{GoMap, lookup}

-- The values of a `map[string]any` that collectors build: what JSON can hold. A number is kept as its
-- JSON text.
mutual
  pub data Value : Type 0 where
    null : Value
    boolean : Bool → Value
    number : String → Value
    str : String → Value
    array : Values → Value
    object : Fields → Value

  pub data Values : Type 0 where
    empty : Values
    item : Value → Values → Values

  pub data Fields : Type 0 where
    end : Fields
    field : String → Value → Fields → Fields

abbrev pub Record : Type 0
Record = GoMap Value

-- `s, _ := v.(string)`: the empty string where the value is missing or is no string.
abbrev text_of : Option Value → String
text_of none = ""
text_of (some null) = ""
text_of (some (boolean b)) = ""
text_of (some (number n)) = ""
text_of (some (str s)) = s
text_of (some (array vs)) = ""
text_of (some (object fs)) = ""

unfoldable pub text_field : String → Record → String
text_field name rec = text_of (lookup name rec)

pub record EntityCollection : Type 0 where
  pub count : ℕ
  pub fingerprint : String
  pub records : List Record
  pub summarized : Bool
  pub omitted : ℕ

pub record RemovedStub : Type 0 where
  pub key : String
  pub previous_fingerprint : String

pub record EntityDelta : Type 0 where
  pub count : ℕ
  pub added : List Record
  pub changed : List Record
  pub removed : List RemovedStub
  pub unchanged : ℕ

pub record HostIdentifier : Type 0 where
  pub device_id : String
  pub device_id_source : String
  pub hardware_uuid : Option String
  pub machine_guid : Option String
  pub instance_id : String
  pub hostname : String
  pub fqdn : Option String

pub record AgentInfo : Type 0 where
  pub name : String
  pub version : String
  pub os : String
  pub arch : String
  pub elevated : Bool
  pub runtime : String
  pub profile : String
  pub user : String

pub record EntityError : Type 0 where
  pub error : String
  pub gated : Bool
  pub duration_ms : ℕ

pub record Chunk : Type 0 where
  pub index : ℕ
  pub count : ℕ
  pub entities : List String

pub data Action : Type 0 where
  snapshot delta : Action

-- What `Envelope.Entities` holds under a name: a collection in a snapshot, a delta in a delta. The nil
-- interface is what a lookup of a missing name gives.
pub data Entity : Type 0 where
  nil : Entity
  collected : EntityCollection → Entity
  changes : EntityDelta → Entity

pub record Envelope : Type 0 where
  pub schema_version : ℕ
  pub scan_id : String
  pub base_scan_id : Option String
  pub action : Action
  pub partial : Bool
  pub host_identifier : HostIdentifier
  pub calendar_time : String
  pub unix_time : ℕ
  pub decorators : GoMap Value
  pub agent : AgentInfo
  pub truncated : List String
  pub entity_errors : GoMap EntityError
  pub entities : GoMap Entity
  pub chunk : Option Chunk

-- The copy shares all fields but the two that are given.
abbrev pub clone_with_entities : Envelope → GoMap Entity → Option Chunk → Envelope
clone_with_entities e entities chunk = record e { entities = entities; chunk = chunk }

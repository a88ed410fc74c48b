-- ===== src/Ingest/Send.antt =====
-- internal/ingest/ingest.go: `validateEndpoint`, `scopedSpoolDir`, `wire` and `Send`. JSON, gzip,
-- SHA-256, URL parsing and paths enter as parameters.
use Prim.Native.String.{len}
use sopdet.Prelude.{
  ℕ, ◌+◌, String, ◌<>◌, Bool, true, false, not, ◌&&◌, ◌||◌, Option, none, some, List, [], ◌∷◌, ◌=ˢ◌,
  if◌then◌else◌, length,
}
use sopdet.Prelude.GoMap.{keys}
use sopdet.Prelude.Sort.{sort_texts}
use sopdet.Prelude.Outcome.{Outcome, ok, err, ◌>>=◌}
use sopdet.Net.{Net, is_loopback_host}
use sopdet.Schema.Types.{Envelope, Chunk, clone_with_entities}
use sopdet.Ingest.Chunks.{Group, make_groups}
use sopdet.Ingest.World.{World, Host, Options, post, drain, spool, pending}

pub record Body : Type 0 where
  pub payload : String
  pub content_encoding : Option String
  pub scan_id : String
  pub chunk_index : ℕ
  pub chunk_count : ℕ

pub record Codec : Type 0 where
  pub marshal_envelope : Envelope → Outcome String
  pub marshal_body : Body → Outcome String
  pub gzip_base64 : String → Outcome String
  -- the first 16 bytes of the SHA-256 sum, in hexadecimal
  pub sha256_prefix : String → String
  pub join : String → String → String
  pub net : Net
  pub parses_proxy : String → Bool

pub record Result : Type 0 where
  pub delivered : Bool
  pub chunks : ℕ
  pub spooled : ℕ
  pub uncompressed_bytes : ℕ
  pub compressed_bytes : ℕ

abbrev pub no_result : Result
no_result = record {
  delivered = false;
  chunks = 0;
  spooled = 0;
  uncompressed_bytes = 0;
  compressed_bytes = 0;
}

module _ (codec : Codec) where
  unfoldable pub validate_endpoint : String → Outcome (Unit {0})
  unfolding is_loopback_host
  validate_endpoint raw = elim (codec.net.parse_request_uri raw) [
    | none ↦ err "invalid ingest endpoint"
    | some u ↦
        if (u.host =ˢ "") || u.has_user
        then err "invalid ingest endpoint"
        else if u.scheme =ˢ "https"
        then ok tt
        else if (u.scheme =ˢ "http") && is_loopback_host codec.net u.hostname
        then ok tt
        else err "ingest endpoint must use https (http is allowed only on loopback)"
  ]

  unfoldable pub wire : Bool → String → Outcome String
  wire compress payload = if compress then codec.gzip_base64 payload else ok payload

  unfoldable pub scoped_spool_dir : String → String → String → String
  scoped_spool_dir base endpoint api_key =
      if base =ˢ ""
      then ""
      else codec.join base
          ("go-" <> codec.sha256_prefix ("go\0" <> (endpoint <> ("\0" <> api_key))))

  -- `cj, _ := json.Marshal(…)`: an error leaves the empty text.
  abbrev or_empty : Outcome String → String
  or_empty (ok s) = s
  or_empty (err e) = ""

  -- `len(w)` of a trial group.
  unfoldable pub trial_size : Envelope → Bool → Group → ℕ
  unfolding wire
  trial_size env compress g = len (
      or_empty (wire compress (or_empty (codec.marshal_envelope (clone_with_entities env g none)))))

  -- The request of one group.
  unfoldable pub request_of : Envelope → Options → ℕ → ℕ → Group → Outcome String
  unfolding wire
  request_of env o count i g = do
    let chunk : Chunk = record { index = i; count = count; entities = sort_texts (keys g) }
    doc ← codec.marshal_envelope (clone_with_entities env g (some chunk))
    payload ← wire o.compress doc
    codec.marshal_body (record {
      payload = payload;
      content_encoding = if o.compress then some "gzip+base64" else none;
      scan_id = o.scan_id;
      chunk_index = i;
      chunk_count = count;
    })

  module _ (host : Host) (env : Envelope) (o : Options) (count : ℕ) where
    -- The loop over the groups; the flag is `failed`.
    unfoldable pub deliver : ℕ → List Group → Bool → World → Outcome Bool × World
    deliver i [] flag w = (ok flag, w)
    deliver i (g ∷ gs) flag w = elim (request_of env o count i g) [
      | err e ↦ (err e, w)
      | ok req ↦
          let (done, w₁) = post host o req w in
          let (saved, w₂) = spool host o i req w₁ in
          elim done [
            | true ↦ deliver (i + 1) gs flag w₁
            | false ↦ elim saved [ err e ↦ (err e, w₂) | ok _ ↦ deliver (i + 1) gs true w₂ ]
          ]
    ]

  -- What `Send` returns: the result beside the error, if there is one.
  abbrev pub Sent : Type 0
  Sent = record { result : Result; error : Option String; world : World }

  -- The part of `Send` behind the groups.
  unfoldable pub send_groups : Host → Envelope → Options → List Group → Result → World → Sent
  send_groups host env o groups res w =
      let count = length groups in
      let res₁ = record res { chunks = count } in
      if not (o.proxy =ˢ "") && not (codec.parses_proxy o.proxy)
      then record { result = res₁; error = some "proxy"; world = w }
      else let (drained, w₁) = drain host o w in
        let (outcome, w₂) = deliver host env o count 0 groups (not drained) w₁ in
        elim outcome [
          | err e ↦ record { result = res₁; error = some e; world = w₂ }
          | ok flag ↦
              let left : ℕ = elim (pending host o w₂) [ ok n ↦ n | err _ ↦ 0 ] in
              record {
                result = record res₁ { delivered = not flag; spooled = left };
                error = none;
                world = w₂;
              }
        ]

  unfoldable pub send : Host → Envelope → Options → World → Sent
  unfolding send_groups validate_endpoint scoped_spool_dir wire
  send host env o' w =
      let o = record o' { spool_dir = scoped_spool_dir o'.spool_dir o'.endpoint o'.api_key } in
      elim (validate_endpoint o.endpoint) [
        | err e ↦ record { result = no_result; error = some e; world = w }
        | ok _ ↦ elim (codec.marshal_envelope env) [
          | err e ↦ record { result = no_result; error = some e; world = w }
          | ok full ↦ elim (wire o.compress full) [
            | err e ↦ record {
              result = record no_result { uncompressed_bytes = len full };
              error = some e;
              world = w;
            }
            | ok whole ↦
                let res = record no_result {
                  uncompressed_bytes = len full;
                  compressed_bytes = len whole;
                } in
                let groups =
                  make_groups (trial_size env o.compress) o.chunk_bytes env.entities (len whole) in
                send_groups host env o groups res w
          ]
        ]
      ]

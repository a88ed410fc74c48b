-- ===== src/Agent/Socket.antt =====
-- internal/agent/ws.go: the address of the hint socket and the request that opens it. net/url is a parameter: what parses
-- an address and what prints one, of which the fields that are not changed here are opaque.
use sopdet.Prelude.{String, ◌<>◌, ◌≡◌, none, some, ◌=ˢ◌, if◌then◌else◌, arith}
use sopdet.Prelude.Text.{trim_right_slashes}
use sopdet.Prelude.Outcome.{Outcome, ok, err}
use sopdet.Agent.Key.{parse_device_key_id}

-- A parsed address: the fields that are set below, and the others.
pub record Address (Rest : Type 0) : Type 0 where
  pub scheme : String
  pub path : String
  pub raw_query : String
  pub others : Rest

-- `url.Parse` and the method `String`.
pub record Addresses (Rest : Type 0) : Type 0 where
  pub parse : String → Outcome (Address Rest)
  pub show : Address Rest → String

pub record WsHintClient : Type 0 where
  pub ws_url : String
  pub device_id : String
  pub device_key : String

-- The `switch` on the scheme.
unfoldable pub socket_scheme : String → Outcome String
socket_scheme scheme =
    if scheme =ˢ "https"
    then ok "wss"
    else (if scheme =ˢ "http"
        then ok "ws"
        else err ("unsupported base URL scheme \"" <> (scheme <> "\"")))

-- The assignments to the parsed address.
unfoldable pub socket_address : {Rest : Type 0} → Address Rest → String → Address Rest
socket_address u scheme = record u { scheme = scheme; path = "/ws/connect"; raw_query = "" }

-- `NewWSHintClient`, of the base address and the key of the client.
unfoldable pub new_ws_hint_client :
    {Rest : Type 0} → Addresses Rest → String → String → Outcome WsHintClient
unfolding socket_scheme socket_address
new_ws_hint_client addresses base_url device_key = elim (parse_device_key_id device_key) [
  | none ↦ err "device key has unexpected format"
  | some device_id ↦ elim (addresses.parse (trim_right_slashes base_url)) [
    | err e ↦ err e
    | ok u ↦ elim (socket_scheme u.scheme) [
      | err e ↦ err e
      | ok scheme ↦ ok (record {
        ws_url = addresses.show (socket_address u scheme);
        device_id = device_id;
        device_key = device_key;
      })
    ]
  ]
]

-- The header of the request that `dial` makes, as a name and a value; the address has no part of the key.
unfoldable pub dial_header : WsHintClient → String × String
dial_header w = ("Authorization", "Bearer " <> w.device_key)

-- Whatever the keys are that two clients of one base address have, they dial the same address: nothing of the key is in it.
pub new_ws_hint_client-ws_url :
    {Rest : Type 0} (addresses : Addresses Rest) (base_url key key' : String) (w w' : WsHintClient)
    → new_ws_hint_client addresses base_url key ≡ ok w
    → new_ws_hint_client addresses base_url key' ≡ ok w'
    → w.ws_url ≡ w'.ws_url
unfolding new_ws_hint_client
new_ws_hint_client-ws_url addresses base_url key key' w w' h h' = ground arith

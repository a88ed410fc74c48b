-- ===== src/Net.antt =====
-- The parts of net/url and net that decide where credentials may go, as parameters, and the rule that
-- both the delivery and the agent apply to a host.
use sopdet.Prelude.{String, Bool, Option, ◌||◌}

pub record Url : Type 0 where
  pub scheme : String
  pub host : String
  pub hostname : String
  pub has_user : Bool

pub record Net : Type 0 where
  -- `url.ParseRequestURI`
  pub parse_request_uri : String → Option Url
  -- `strings.EqualFold`
  pub equal_fold : String → String → Bool
  -- `ip != nil && ip.IsLoopback()` for `ip := net.ParseIP(host)`
  pub is_loopback_ip : String → Bool

-- `isLoopbackHost` of the agent; the delivery writes the same test in line.
unfoldable pub is_loopback_host : Net → String → Bool
is_loopback_host net hostname = net.equal_fold hostname "localhost" || net.is_loopback_ip hostname

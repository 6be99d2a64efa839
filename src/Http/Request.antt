-- ===== src/Http/Request.antt =====
-- pc-service/src/wol_unlock/http/middleware.py: what the middlewares read of a request, and the
-- state that they share.
use pc_helper_ios.Prelude.{
  ℕ, Bool, true, false, ◌&&◌, ◌||◌, not, Option, none, some, List, [], Text, codes, text_eq,
}
use pc_helper_ios.Errors.{Result}
use pc_helper_ios.Unicode.{Unicode}
use pc_helper_ios.Config.Address.{Address, Network}
use pc_helper_ios.Crypto.Verify.{Primitives, Headers}
use pc_helper_ios.RateLimit.{Limits, Buckets}
use pc_helper_ios.Store.{Store}
use pc_helper_ios.Store.Statements.{Device}

-- `request.match_info`: none, that of a 404 or 405, or that of a route
pub data MatchInfo : Type 0 where
  no_match_info http_exception matched : MatchInfo

-- `received` is what `request.read()` answers.
pub record Request : Type 0 where
  pub method : Text
  pub path : Text
  pub query_string : Text
  pub headers : Headers
  pub remote : Option Text
  pub match_info : MatchInfo
  pub content_length : Option ℕ
  pub received : Result Text

-- The clocks that a request reads: the monotonic one twice, the wall clock for authentication, and
-- the wall clock when the answer is made.
pub record Clocks : Type 0 where
  pub ip_ticks : ℕ
  pub device_ticks : ℕ
  pub now : ℕ
  pub done : ℕ

-- The service context, and what stands for hashlib, Ed25519 and `ipaddress`. `token` is the cost
-- of a request.
pub record Context : Type 0 where
  pub unicode : Unicode
  pub primitives : Primitives
  pub ip_address : Text → Option Address
  pub fingerprint : Text
  pub sign : Text → Text
  pub networks : List Network
  pub max_body_bytes : ℕ
  pub skew : ℕ
  pub limits : Limits
  pub token : ℕ

-- What requests change; `device` is `request[KEY_DEVICE]` of the request that is served.
pub record World : Type 0 where
  pub store : Store
  pub buckets : Buckets
  pub device : Option Device

abbrev pub server_info_path : Text
server_info_path = codes "/v1/server-info"

abbrev pub pair_path : Text
pair_path = codes "/v1/pair"

-- PUBLIC_PATHS
unfoldable pub is_public : Text → Bool
is_public path = text_eq path server_info_path || text_eq path pair_path

abbrev pub is_matched : MatchInfo → Bool
is_matched no_match_info = false
is_matched http_exception = false
is_matched matched = true

unfoldable pub requires_auth : Request → Bool
unfolding is_public
requires_auth r = is_matched r.match_info && not (is_public r.path)

abbrev pub or_empty : Option Text → Text
or_empty none = []
or_empty (some s) = s

-- `request.remote or ""`
abbrev pub peer_ip : Request → Text
peer_ip r = or_empty r.remote

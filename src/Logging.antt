-- ===== src/Logging.antt =====
-- src/logger.ts: the request's identifier and the level at which a request is logged. Writing the
-- log is the package pino's.
pub mod RequestId
mod Tests
use node_jwt_redis_session_a.Base.{
  Text, ℕ, Bool, true, false, ◌&&◌, ◌||◌, Option, none, some, List, [], ◌∷◌, leb, ◌==◌, length,
  if◌then◌else◌, ltb,
}

-- `[A-Za-z0-9._-]`
abbrev pub is_safe : ℕ → Bool
is_safe c =
    (leb b'A' c && leb c b'Z')
    || (leb b'a' c && leb c b'z')
    || (leb b'0' c && leb c b'9')
    || c == b'.'
    || c == b'_'
    || c == b'-'

abbrev pub all_safe : Text → Bool
all_safe [] = true
all_safe (c ∷ s) = is_safe c && all_safe s

abbrev pub max_request_id_length : ℕ
max_request_id_length = 128

-- `CLIENT_REQUEST_ID.test(s)`
abbrev pub is_request_id : Text → Bool
is_request_id s = leb 1 (length s) && leb (length s) max_request_id_length && all_safe s

-- `genReqId`: the identifier, which is the header X-Request-Id of the response too, for that of the
-- request and what `randomUUID` gives.
unfoldable pub gen_req_id : Option Text → Text → Text
gen_req_id none uuid = uuid
gen_req_id (some existing) uuid = if is_request_id existing then existing else uuid

pub data Level : Type 0 where
  error_level warn_level info_level : Level

-- `customLogLevel`
unfoldable pub custom_log_level : Bool → ℕ → Level
custom_log_level has_error status =
    if has_error || leb 500 status
    then error_level
    else if leb 400 status
    then warn_level
    else info_level

-- ===== src/Sessions/Records.antt =====
-- The constants of src/repositories/SessionRepository.ts, the sessions that it stores, and how they
-- are written as JSON.
use node_jwt_redis_session_a.Base.{Text, ℕ, ◌*◌, ◌<◌, ◌^◌, ◌≡◌, Option, none, some, []}
use node_jwt_redis_session_a.Account.{UserRole}

abbrev pub session_idle_ttl_seconds : ℕ
session_idle_ttl_seconds = 7 * 24 * 60 * 60

abbrev pub session_absolute_ttl_seconds : ℕ
session_absolute_ttl_seconds = 30 * 24 * 60 * 60

abbrev pub refresh_grace_period_ms : ℕ
refresh_grace_period_ms = 30 * 1000

pub record SessionRecord : Type 0 where
  pub user_id : Text
  pub role : UserRole
  pub refresh_token_hash : Text
  pub previous_refresh_token_hash : Option Text
  pub rotated_at : Option ℕ
  pub created_at : ℕ
  pub expires_at : ℕ
  pub absolute_expires_at : ℕ

pub record RotateParams : Type 0 where
  pub presented_hash : Text
  pub new_hash : Text
  pub role : UserRole
  pub now : ℕ

pub data RotateOutcome : Type 0 where
  rotated concurrent reused missing : RotateOutcome

-- Times that Lua's cjson writes without loss: it prints 14 significant digits.
abbrev pub IsPrecise : SessionRecord → Type 0
IsPrecise r =
    (r.created_at < 10 ^ 14)
    × (r.expires_at < 10 ^ 14)
    × (r.absolute_expires_at < 10 ^ 14)
    × ((t : ℕ) → r.rotated_at ≡ some t → t < 10 ^ 14)

-- `JSON.stringify` and `JSON.parse` at session records, and Redis's cjson. Decoders fail with
-- `none`. What one side writes the other reads back.
pub record Codec : Type 0 where
  pub stringify : SessionRecord → Text
  pub parse : Text → Option SessionRecord
  pub cjson_encode : SessionRecord → Text
  pub cjson_decode : Text → Option SessionRecord
  -- `JSON.parse('')` throws.
  pub parse-nil : parse [] ≡ none
  pub parse-stringify : (r : SessionRecord) → parse (stringify r) ≡ some r
  pub cjson_decode-stringify : (r : SessionRecord) → cjson_decode (stringify r) ≡ some r
  pub parse-cjson_encode : (r : SessionRecord) → IsPrecise r → parse (cjson_encode r) ≡ some r
  pub cjson_decode-cjson_encode :
      (r : SessionRecord) → IsPrecise r → cjson_decode (cjson_encode r) ≡ some r

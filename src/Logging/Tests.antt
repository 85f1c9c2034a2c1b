-- ===== src/Logging/Tests.antt =====
-- A client's identifier that is not safe.
use node_jwt_redis_session_a.Base.{Text, codes, ◌≡◌, some, arith}
use node_jwt_redis_session_a.Logging.{gen_req_id}
use node_jwt_redis_session_a.Logging.RequestId.{SafeId, gen_req_id-SafeId}

abbrev uuid : Text
uuid = codes "0b1e-4a"

uuid-SafeId : SafeId uuid
uuid-SafeId = (
  omega arith,
  omega arith,
  (
    ground arith,
    (
      ground arith,
      (ground arith, (ground arith, (ground arith, (ground arith, (ground arith, tt))))),
    ),
  ),
)

gen_req_id-SafeId_example :
    SafeId (gen_req_id (some (codes "a b")) uuid)
    × ((id : Text)
        → some (codes "a b") ≡ some id
        → SafeId id
        → gen_req_id (some (codes "a b")) uuid ≡ id)
    × (((id : Text) → some (codes "a b") ≡ some id → ¬ SafeId id)
        → gen_req_id (some (codes "a b")) uuid ≡ uuid)
gen_req_id-SafeId_example = gen_req_id-SafeId (some (codes "a b")) uuid uuid-SafeId

-- ===== src/Proxy.antt =====
-- src/trustProxy.ts: which proxies Express believes.
pub mod Trimming
pub mod Trusted
mod Tests
use node_jwt_redis_session_a.Base.{
  Text, codes, ℕ, ◌+◌, ◌*◌, ◌-◌, Bool, true, false, ◌&&◌, Option, none, some, List, [], ◌∷◌, ◌===◌,
  leb, if◌then◌else◌, Result, ok, err, trim, is_empty, ◌||◌,
}
use node_jwt_redis_session_a.Errors.{js_error}

-- `false`, a number of hops, or a list of subnets. The number is exact below 2 ^ 53, as in
-- JavaScript; above, JavaScript rounds it.
pub data TrustProxy : Type 0 where
  distrust : TrustProxy
  hops : ℕ → TrustProxy
  subnets : Text → TrustProxy

-- `/^\d+$/.test(s)`, for a text that is not empty.
abbrev pub all_digits : Text → Bool
all_digits [] = true
all_digits (c ∷ s) = leb b'0' c && leb c b'9' && all_digits s

-- `Number(s)`, for a text of digits, after the digits whose number is `n`.
abbrev pub number_of : ℕ → Text → ℕ
number_of n [] = n
number_of n (c ∷ s) = number_of (n * 10 + (c - b'0')) s

abbrev pub trust_true : Result TrustProxy
trust_true = err (js_error "TRUST_PROXY=true would trust a client-supplied X-Forwarded-For")

-- `value?.trim() ?? ''`
abbrev pub normalized : Option Text → Text
normalized none = []
normalized (some value) = trim value

abbrev pub parse_normalized : Text → Result TrustProxy
parse_normalized s =
    if is_empty s || s === codes "false"
    then ok distrust
    else if s === codes "true"
    then trust_true
    else if all_digits s
    then ok (hops (number_of 0 s))
    else ok (subnets s)

unfoldable pub parse_trust_proxy : Option Text → Result TrustProxy
parse_trust_proxy value = parse_normalized (normalized value)

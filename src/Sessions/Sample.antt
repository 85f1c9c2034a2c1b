-- ===== src/Sessions/Sample.antt =====
-- A codec of session records that meets the laws of the interface.
use node_jwt_redis_session_a.Base.{
  Text, ℕ, ◌≡◌, refl, ap, ◌∙◌, Option, none, some, List, [], ◌∷◌, read_fields, join_fields,
  read_fields-join_fields,
}
use node_jwt_redis_session_a.Account.{UserRole, user, admin}
use node_jwt_redis_session_a.Sessions.{Codec, SessionRecord}

abbrev pub put_role : UserRole → Text
put_role user = []
put_role admin = 1 ∷ []

abbrev pub role_of : Text → UserRole
role_of [] = user
role_of (_ ∷ _) = admin

abbrev put_option : Option Text → Text
put_option none = []
put_option (some t) = 1 ∷ t

abbrev option_of : Text → Option Text
option_of [] = none
option_of (_ ∷ t) = some t

abbrev put_time : Option ℕ → Text
put_time none = []
put_time (some t) = t ∷ []

abbrev time_of : Text → Option ℕ
time_of [] = none
time_of (t ∷ _) = some t

abbrev number_of : Text → ℕ
number_of [] = 0
number_of (n ∷ _) = n

abbrev fields : SessionRecord → List Text
fields r =
    r.user_id
    ∷ put_role r.role
    ∷ r.refresh_token_hash
    ∷ put_option r.previous_refresh_token_hash
    ∷ put_time r.rotated_at
    ∷ (r.created_at ∷ [])
    ∷ (r.expires_at ∷ [])
    ∷ (r.absolute_expires_at ∷ [])
    ∷ []

abbrev of_fields : List Text → Option SessionRecord
of_fields (user_id ∷ role ∷ hash ∷ previous ∷ at ∷ created ∷ expires ∷ absolute ∷ []) =
    some (record {
      user_id = user_id;
      role = role_of role;
      refresh_token_hash = hash;
      previous_refresh_token_hash = option_of previous;
      rotated_at = time_of at;
      created_at = number_of created;
      expires_at = number_of expires;
      absolute_expires_at = number_of absolute;
    })
of_fields _ = none

pub role_of-put_role : (r : UserRole) → role_of (put_role r) ≡ r
role_of-put_role user = refl
role_of-put_role admin = refl

option_of-put_option : (o : Option Text) → option_of (put_option o) ≡ o
option_of-put_option none = refl
option_of-put_option (some t) = refl

time_of-put_time : (o : Option ℕ) → time_of (put_time o) ≡ o
time_of-put_time none = refl
time_of-put_time (some t) = refl

of_fields-fields : (r : SessionRecord) → of_fields (fields r) ≡ some r
of_fields-fields r = λ i. some (record r {
  role = role_of-put_role r.role i;
  previous_refresh_token_hash = option_of-put_option r.previous_refresh_token_hash i;
  rotated_at = time_of-put_time r.rotated_at i;
})

abbrev encode : SessionRecord → Text
encode r = join_fields (fields r)

abbrev decode : Text → Option SessionRecord
decode s = of_fields (read_fields 8 s)

pub decode-encode : (r : SessionRecord) → decode (encode r) ≡ some r
decode-encode r = ap of_fields (read_fields-join_fields (fields r)) ∙ of_fields-fields r

abbrev pub codec : Codec
codec = record {
  stringify = encode;
  parse = decode;
  cjson_encode = encode;
  cjson_decode = decode;
  parse-nil = refl;
  parse-stringify = decode-encode;
  cjson_decode-stringify = decode-encode;
  parse-cjson_encode = λ r h. decode-encode r;
  cjson_decode-cjson_encode = λ r h. decode-encode r;
}

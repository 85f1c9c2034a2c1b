-- ===== src/Base/Fields.antt =====
-- Texts that carry a list of fields, for the samples of the packages' encoders.
use Prim.Native.Nat.{ℕ, zero, suc}
use mathlib.Core.Path.{◌≡◌, refl, ap}
use mathlib.Core.List.{List, [], ◌∷◌, ◌++◌}
use node_jwt_redis_session_a.Base.Strings.{
  Text, length, take, drop, take-length_append, drop-length_append,
}

abbrev pub join_fields : List Text → Text
join_fields [] = []
join_fields (x ∷ xs) = length x ∷ x ++ join_fields xs

abbrev pub read_fields : ℕ → Text → List Text
read_fields zero s = []
read_fields (suc k) [] = []
read_fields (suc k) (n ∷ s) = take n s ∷ read_fields k (drop n s)

pub read_fields-join_fields : (xs : List Text) → read_fields (length xs) (join_fields xs) ≡ xs
read_fields-join_fields [] = refl
read_fields-join_fields (x ∷ xs) =
    rw (take-length_append x (join_fields xs), drop-length_append x (join_fields xs))
      (ap (λ r. x ∷ r) (read_fields-join_fields xs))

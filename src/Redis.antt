-- ===== src/Redis.antt =====
-- The Redis server, which is not part of the repository: an interface with the commands that the
-- program sends, and their documented behaviour as laws. Times are the server's, in milliseconds.
pub mod Client
pub mod Transaction
pub mod Sample
use node_jwt_redis_session_a.Base.{
  Text, ℕ, ◌+◌, ◌*◌, ◌≤◌, ◌<◌, ◌≡◌, Bool, true, false, not, ◌&&◌, ◌||◌, Option, none, some, List,
  ltb, ◌===◌, contains, if◌then◌else◌,
}

-- What a key holds: a string, a string that INCR made, or a set in some order.
pub data Value : Type 0 where
  str : Text → Value
  num : ℕ → Value
  members : List Text → Value

-- A value and the time from which it is no longer there.
pub record Entry : Type 0 where
  pub value : Value
  pub deadline : Option ℕ

abbrev pub is_due : ℕ → Option ℕ → Bool
is_due t none = false
is_due t (some d) = not (ltb t d)

-- What is left at time `t` of what a key held before.
abbrev pub survive : ℕ → Option Entry → Option Entry
survive t none = none
survive t (some e) = if is_due t e.deadline then none else some e

-- `GET`: the string that the key holds.
abbrev pub text_of : Option Entry → Option Text
text_of none = none
text_of (some e) = elim e.value [ str v ↦ some v | _ ↦ none ]

-- Whether the set at a key has a member; a missing key is an empty set.
abbrev pub in_value : Value → Text → Bool
in_value (members xs) m = contains xs m
in_value _ m = false

abbrev pub has : Option Entry → Text → Bool
has none m = false
has (some e) m = in_value e.value m

-- The integer that INCR counts from; a missing key counts as 0.
abbrev pub count_value : Value → ℕ
count_value (num n) = n
count_value _ = 0

abbrev pub count_of : Option Entry → ℕ
count_of none = 0
count_of (some e) = count_value e.value

abbrev pub deadline_of : Option Entry → Option ℕ
deadline_of none = none
deadline_of (some e) = e.deadline

-- `EXPIRE` gives a key that is there a new deadline.
abbrev pub expire_entry : ℕ → Option Entry → Option Entry
expire_entry d none = none
expire_entry d (some e) = some (record e { deadline = some d })

-- No string under the key: `SADD` and `SREM` do not fail with WRONGTYPE.
abbrev pub is_set : Option Entry → Bool
is_set none = true
is_set (some e) = elim e.value [ members xs ↦ true | _ ↦ false ]

pub record Redis : Type 1 where
  pub Store : Type 0
  -- What the server shows under a key at a time.
  pub live : Store → ℕ → Text → Option Entry
  -- `SET key value EX seconds`, for a positive number of seconds.
  pub set_ex : Text → Text → ℕ → ℕ → Store → Store
  pub del : Text → ℕ → Store → Store
  pub incr : Text → ℕ → Store → Store
  pub expire : Text → ℕ → ℕ → Store → Store
  pub sadd : Text → Text → ℕ → Store → Store
  pub srem : Text → Text → ℕ → Store → Store
  pub smembers : Text → ℕ → Store → List Text
  -- `TTL`, with its negative replies (no key, no deadline) as 0.
  pub ttl : Text → ℕ → Store → ℕ
  -- A key is there until its deadline.
  pub live-later : (s : Store) (t u : ℕ) (k : Text) → t ≤ u → live s u k ≡ survive u (live s t k)
  pub live-set_ex :
      (k v : Text) (n t : ℕ) (s : Store) (j : Text)
      → 0 < n
      → live (set_ex k v n t s) t j ≡ (
          if k === j
          then some (record { value = str v; deadline = some (t + n * 1000) })
          else live s t j)
  pub live-del :
      (k : Text) (t : ℕ) (s : Store) (j : Text)
      → live (del k t s) t j ≡ (if k === j then none else live s t j)
  -- INCR keeps the deadline of a counter that is there.
  pub live-incr :
      (k : Text) (t : ℕ) (s : Store) (j : Text)
      → live (incr k t s) t j ≡ (
          if k === j
          then some (record {
            value = num (count_of (live s t k) + 1);
            deadline = deadline_of (live s t k);
          })
          else live s t j)
  pub live-expire :
      (k : Text) (n t : ℕ) (s : Store) (j : Text)
      → 0 < n
      → live (expire k n t s) t j
        ≡ (if k === j then expire_entry (t + n * 1000) (live s t j) else live s t j)
  pub live-sadd :
      (k m : Text) (t : ℕ) (s : Store) (j : Text)
      → (k === j) ≡ false
      → live (sadd k m t s) t j ≡ live s t j
  pub has-sadd :
      (k m : Text) (t : ℕ) (s : Store) (x : Text)
      → is_set (live s t k) ≡ true
      → has (live (sadd k m t s) t k) x ≡ (m === x || has (live s t k) x)
  pub live-srem :
      (k m : Text) (t : ℕ) (s : Store) (j : Text)
      → (k === j) ≡ false
      → live (srem k m t s) t j ≡ live s t j
  pub has-srem :
      (k m : Text) (t : ℕ) (s : Store) (x : Text)
      → has (live (srem k m t s) t k) x ≡ (not (m === x) && has (live s t k) x)
  -- The sets stay sets: what SADD and SREM leave under the key is no string.
  pub is_set-sadd :
      (k m : Text) (t : ℕ) (s : Store)
      → is_set (live s t k) ≡ true
      → is_set (live (sadd k m t s) t k) ≡ true
  pub is_set-srem :
      (k m : Text) (t : ℕ) (s : Store)
      → is_set (live s t k) ≡ true
      → is_set (live (srem k m t s) t k) ≡ true
  -- SREM keeps the deadline of a set that it does not empty.
  pub deadline-srem :
      (k m : Text) (t : ℕ) (s : Store) (x : Text)
      → has (live (srem k m t s) t k) x ≡ true
      → deadline_of (live (srem k m t s) t k) ≡ deadline_of (live s t k)
  pub smembers_lem :
      (k : Text) (t : ℕ) (s : Store) (m : Text) → contains (smembers k t s) m ≡ has (live s t k) m
  pub ttl-none : (k : Text) (t : ℕ) (s : Store) → live s t k ≡ none → ttl k t s ≡ 0
  -- The reply is the remaining time, to within less than a second.
  pub ttl-near :
      (k : Text) (t : ℕ) (s : Store) (e : Entry) (d : ℕ)
      → live s t k ≡ some e
      → e.deadline ≡ some d
      → (t + ttl k t s * 1000 < d + 1000) × (d < t + ttl k t s * 1000 + 1000)

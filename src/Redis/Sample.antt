-- ===== src/Redis/Sample.antt =====
-- A server that meets the laws of the interface: a function from keys to entries.
use node_jwt_redis_session_a.Base.{
  Text, ℕ, ◌+◌, ◌-◌, ◌*◌, ◌/◌, ◌≤◌, ◌<◌, ◌≡◌, refl, true, false, not, ◌&&◌, ◌||◌, Option, none,
  some, List, [], ◌∷◌, ◌===◌, ===_iff, ===-refl, ap, ◌∙◌, inl, inr, contains, if◌then◌else◌, arith,
  Bool-cases,
}
use node_jwt_redis_session_a.Redis.{
  Redis, Value, str, num, members, Entry, is_due, survive, in_value, has, count_of, deadline_of,
  expire_entry, is_set,
}

abbrev pub SampleStore : Type 0
SampleStore = Text → Option Entry

abbrev live : SampleStore → ℕ → Text → Option Entry
live s t k = survive t (s k)

-- Change what a key holds at a time.
abbrev edit : Text → (Option Entry → Option Entry) → ℕ → SampleStore → SampleStore
edit k f t s j = if k === j then f (live s t j) else s j

abbrev without : Text → List Text → List Text
without m [] = []
without m (x ∷ xs) = let rest = without m xs in if m === x then rest else x ∷ rest

-- SREM deletes a set that it empties.
abbrev keep_members : Entry → List Text → Option Entry
keep_members e [] = none
keep_members e (x ∷ xs) = some (record e { value = members (x ∷ xs) })

abbrev members_of : Value → List Text
members_of (members xs) = xs
members_of _ = []

abbrev add_member : Text → Option Entry → Option Entry
add_member m none = some (record { value = members (m ∷ []); deadline = none })
add_member m (some e) = elim e.value [
  | members xs ↦ some (record e { value = members (m ∷ xs) })
  | _ ↦ some e
]

abbrev remove_member : Text → Option Entry → Option Entry
remove_member m none = none
remove_member m (some e) = elim e.value [ members xs ↦ keep_members e (without m xs) | _ ↦ some e ]

abbrev list_members : Option Entry → List Text
list_members none = []
list_members (some e) = members_of e.value

abbrev seconds_left : ℕ → Option Entry → ℕ
seconds_left t none = 0
seconds_left t (some e) = elim e.deadline [ none ↦ 0 | some d ↦ (d - t + 500) / 1000 ]

pub live-later_lem :
    (s : SampleStore) (t u : ℕ) (k : Text) → t ≤ u → live s u k ≡ survive u (live s t k)
live-later_lem s t u k h = ground arith

live-edit :
    (k : Text) (f : Option Entry → Option Entry) (t : ℕ) (s : SampleStore) (j : Text)
    → live (edit k f t s) t j ≡ (if k === j then survive t (f (live s t j)) else live s t j)
live-edit k f t s j = ground arith

contains-without :
    (m : Text) (xs : List Text) (x : Text)
    → contains (without m xs) x ≡ (not (m === x) && contains xs x)
unfolding contains
contains-without m [] x = ground arith
contains-without m (y ∷ xs) x =
    ground (arith, contains-without m xs x, ===_iff m y, ===_iff y x, ===_iff m x)

pub live-set_ex_lem :
    (k v : Text) (n t : ℕ) (s : SampleStore) (j : Text)
    → 0 < n
    → live (edit k (λ _. some (record { value = str v; deadline = some (t + n * 1000) })) t s) t j
      ≡ (if k === j
          then some (record { value = str v; deadline = some (t + n * 1000) })
          else live s t j)
live-set_ex_lem k v n t s j h = ground arith

pub has-sadd_lem :
    (k m : Text) (t : ℕ) (s : SampleStore) (x : Text)
    → is_set (live s t k) ≡ true
    → has (live (edit k (add_member m) t s) t k) x ≡ (m === x || has (live s t k) x)
unfolding contains
has-sadd_lem k m t s x h = ground (arith, ===_iff k k)

has-keep_members :
    (e : Entry) (xs : List Text) (x : Text) → has (keep_members e xs) x ≡ contains xs x
unfolding contains
has-keep_members e [] x = refl
has-keep_members e (y ∷ xs) x = refl

has-remove_value :
    (v : Value) (d : Option ℕ) (m x : Text)
    → has (remove_member m (some (record { value = v; deadline = d }))) x
      ≡ (not (m === x) && in_value v x)
has-remove_value (str w) d m x = ground arith
has-remove_value (num n) d m x = ground arith
has-remove_value (members xs) d m x =
    has-keep_members (record { value = members xs; deadline = d }) (without m xs) x
    ∙ contains-without m xs x

has-remove_member :
    (m : Text) (o : Option Entry) (x : Text)
    → has (remove_member m o) x ≡ (not (m === x) && has o x)
has-remove_member m none x = ground arith
has-remove_member m (some e) x = has-remove_value e.value e.deadline m x

survive-keep_members :
    (e : Entry) (xs : List Text) (t : ℕ)
    → is_due t e.deadline ≡ false
    → survive t (keep_members e xs) ≡ keep_members e xs
survive-keep_members e [] t h = refl
survive-keep_members e (y ∷ xs) t h = ground arith

survive-remove_value :
    (v : Value) (d : Option ℕ) (m : Text) (t : ℕ)
    → is_due t d ≡ false
    → survive t (remove_member m (some (record { value = v; deadline = d })))
      ≡ remove_member m (some (record { value = v; deadline = d }))
survive-remove_value (members xs) d m t h =
    survive-keep_members (record { value = members xs; deadline = d }) (without m xs) t h
survive-remove_value _ d m t h = ground arith

survive-remove_member :
    (m : Text) (o : Option Entry) (t : ℕ)
    → survive t (remove_member m (survive t o)) ≡ remove_member m (survive t o)
survive-remove_member m none t = refl
survive-remove_member m (some e) t = elim (Bool-cases (is_due t e.deadline)) [
  | inl due ↦ rw due
  | inr fresh ↦ rw fresh (survive-remove_value e.value e.deadline m t fresh)
]

live-srem_self :
    (k m : Text) (t : ℕ) (s : SampleStore)
    → live (edit k (remove_member m) t s) t k ≡ remove_member m (live s t k)
live-srem_self k m t s = rw (===-refl k) (survive-remove_member m (s k) t)

pub has-srem_lem :
    (k m : Text) (t : ℕ) (s : SampleStore) (x : Text)
    → has (live (edit k (remove_member m) t s) t k) x ≡ (not (m === x) && has (live s t k) x)
has-srem_lem k m t s x =
    ap (λ o. has o x) (live-srem_self k m t s) ∙ has-remove_member m (live s t k) x

pub is_set-sadd_lem :
    (k m : Text) (t : ℕ) (s : SampleStore)
    → is_set (live s t k) ≡ true
    → is_set (live (edit k (add_member m) t s) t k) ≡ true
is_set-sadd_lem k m t s h = ground (arith, ===_iff k k)

pub is_set-srem_lem :
    (k m : Text) (t : ℕ) (s : SampleStore)
    → is_set (live s t k) ≡ true
    → is_set (live (edit k (remove_member m) t s) t k) ≡ true
is_set-srem_lem k m t s h = ground (arith, ===_iff k k)

pub deadline-srem_lem :
    (k m : Text) (t : ℕ) (s : SampleStore) (x : Text)
    → has (live (edit k (remove_member m) t s) t k) x ≡ true
    → deadline_of (live (edit k (remove_member m) t s) t k) ≡ deadline_of (live s t k)
deadline-srem_lem k m t s x h = ground (arith, ===_iff k k)

pub ttl-near_lem :
    (k : Text) (t : ℕ) (s : SampleStore) (e : Entry) (d : ℕ)
    → live s t k ≡ some e
    → e.deadline ≡ some d
    → (t + seconds_left t (live s t k) * 1000 < d + 1000)
      × (d < t + seconds_left t (live s t k) * 1000 + 1000)
ttl-near_lem k t s e d h p = ground arith

pub live-del_lem :
    (k : Text) (t : ℕ) (s : SampleStore) (j : Text)
    → live (edit k (λ _. none) t s) t j ≡ (if k === j then none else live s t j)
live-del_lem k t s j = ground arith

pub live-incr_lem :
    (k : Text) (t : ℕ) (s : SampleStore) (j : Text)
    → live
        (edit k (λ o. some (record { value = num (count_of o + 1); deadline = deadline_of o })) t s)
        t
        j
      ≡ (if k === j
          then some (record {
            value = num (count_of (live s t k) + 1);
            deadline = deadline_of (live s t k);
          })
          else live s t j)
live-incr_lem k t s j = ground (arith, ===_iff k j)

pub live-expire_lem :
    (k : Text) (n t : ℕ) (s : SampleStore) (j : Text)
    → 0 < n
    → live (edit k (expire_entry (t + n * 1000)) t s) t j
      ≡ (if k === j then expire_entry (t + n * 1000) (live s t j) else live s t j)
live-expire_lem k n t s j h = ground arith

pub live-edit_other :
    (k : Text) (f : Option Entry → Option Entry) (t : ℕ) (s : SampleStore) (j : Text)
    → (k === j) ≡ false
    → live (edit k f t s) t j ≡ live s t j
live-edit_other k f t s j h = rw h

pub contains-list_members : (o : Option Entry) (m : Text) → contains (list_members o) m ≡ has o m
unfolding contains
contains-list_members none m = refl
contains-list_members (some e) m = ground arith

abbrev pub sample : Redis
sample = record {
  Store = SampleStore;
  live = live;
  set_ex = λ k v n t s.
      edit k (λ _. some (record { value = str v; deadline = some (t + n * 1000) })) t s;
  del = λ k t s. edit k (λ _. none) t s;
  incr = λ k t s.
      edit k (λ o. some (record { value = num (count_of o + 1); deadline = deadline_of o })) t s;
  expire = λ k n t s. edit k (expire_entry (t + n * 1000)) t s;
  sadd = λ k m t s. edit k (add_member m) t s;
  srem = λ k m t s. edit k (remove_member m) t s;
  smembers = λ k t s. list_members (live s t k);
  ttl = λ k t s. seconds_left t (live s t k);
  live-later = live-later_lem;
  live-set_ex = live-set_ex_lem;
  live-del = live-del_lem;
  live-incr = live-incr_lem;
  live-expire = live-expire_lem;
  live-sadd = λ k m t s j h. live-edit_other k (add_member m) t s j h;
  has-sadd = has-sadd_lem;
  live-srem = λ k m t s j h. live-edit_other k (remove_member m) t s j h;
  has-srem = has-srem_lem;
  is_set-sadd = is_set-sadd_lem;
  is_set-srem = is_set-srem_lem;
  deadline-srem = deadline-srem_lem;
  smembers_lem = λ k t s m. contains-list_members (live s t k) m;
  ttl-none = λ k t s h. rw h;
  ttl-near = ttl-near_lem;
}

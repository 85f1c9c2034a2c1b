-- ===== src/Openapi/Value.antt =====
-- JSON values as src/docs/openapi.ts writes them, with the lookup of a member.
use node_jwt_redis_session_a.Base.{
  Text, codes, ℕ, String, Bool, Option, none, some, List, [], ◌∷◌, ◌===◌, if◌then◌else◌,
}

mutual
  pub data Json : Type 0 where
    string : String → Json
    number : ℕ → Json
    boolean : Bool → Json
    array : Items → Json
    object : Members → Json

  pub data Items : Type 0 where
    no_item : Items
    item : Json → Items → Items

  pub data Members : Type 0 where
    no_member : Members
    member : Text → Json → Members → Members

abbrev members_of : List (String × Json) → Members
members_of [] = no_member
members_of ((key, value) ∷ rest) = member (codes key) value (members_of rest)

abbrev items_of : List Json → Items
items_of [] = no_item
items_of (value ∷ rest) = item value (items_of rest)

-- `{ key: value, … }` and `[value, …]`
abbrev pub obj : List (String × Json) → Json
obj members = object (members_of members)

abbrev pub arr : List Json → Json
arr items = array (items_of items)

abbrev lookup : Text → Members → Option Json
lookup key no_member = none
lookup key (member k value rest) =
    let found = lookup key rest in if k === key then some value else found

-- `value[key]`, none for undefined.
abbrev pub at : Text → Json → Option Json
at key (object members) = lookup key members
at key _ = none

abbrev key_list : Members → List Text
key_list no_member = []
key_list (member k value rest) = k ∷ key_list rest

-- `Object.keys(value)`
abbrev pub keys : Json → List Text
keys (object members) = key_list members
keys _ = []

-- ===== src/Message/Hello.antt =====
-- The client's greeting, `hello_message_serialize` of components/lightsnapcast/snapcast.c. cJSON and the
-- allocator are parameters: `J` is a JSON value and `H` the heap.
pub mod Laws
use snapclient.Base.{
  ℕ, ◌+◌, ◌/◌, ◌%◌, ◌^◌, List, [], ◌∷◌, Option, none, some, Bool, true, false, length,
  if◌then◌else◌,
}

-- `hello_message_t`; a string is its bytes without the terminating zero, an int its bit pattern.
pub record HelloMessage : Type 0 where
  pub mac : List ℕ
  pub hostname : List ℕ
  pub version : List ℕ
  pub client_name : List ℕ
  pub os : List ℕ
  pub arch : List ℕ
  pub instance_number : ℕ
  pub id : List ℕ
  pub protocol_version : ℕ

-- The names of the object's members.
pub data Key : Type 0 where
  key_mac key_host_name key_version key_client_name key_os key_arch key_instance key_id
        key_snap_stream_protocol_version :
      Key

-- The argument of `cJSON_CreateString` or `cJSON_CreateNumber`.
pub data Value : Type 0 where
  text : List ℕ → Value
  number : ℕ → Value

-- What the code uses of cJSON and of the heap; `print` is `cJSON_PrintUnformatted`, and `malloc` says
-- whether there is memory.
pub record Writer (J H : Type 0) : Type 0 where
  pub create_object : H → Option J × H
  pub create : Value → H → Option J × H
  pub add_item : J → Key → J → J
  pub print : J → H → Option (List ℕ) × H
  pub delete : J → H → H
  pub malloc : ℕ → H → Bool × H
  pub free : List ℕ → H → H

abbrev pub tail_members : HelloMessage → List (Key × Value)
tail_members msg =
    (key_host_name, text msg.hostname)
    ∷ (key_version, text msg.version)
    ∷ (key_client_name, text msg.client_name)
    ∷ (key_os, text msg.os)
    ∷ (key_arch, text msg.arch)
    ∷ (key_instance, number msg.instance_number)
    ∷ (key_id, text msg.id)
    ∷ (key_snap_stream_protocol_version, number msg.protocol_version)
    ∷ []

abbrev pub members : HelloMessage → List (Key × Value)
members msg = (key_mac, text msg.mac) ∷ tail_members msg

-- The pointer that `hello_message_to_json` returns: null, to an object, or to one that it has deleted.
pub data Built (J : Type 0) : Type 0 where
  null : Built J
  whole : J → Built J
  deleted : Built J

-- What `hello_message_serialize` returns, with `*size`; `use_after_free` is its access to the object that
-- was deleted.
pub data Serialized : Type 0 where
  failed : Serialized
  use_after_free : Serialized
  serialized : List ℕ → ℕ → Serialized

-- The bytes of the length, and the text.
abbrev pub prefixed : List ℕ → List ℕ
prefixed str =
    let n = length str in
    n % 2 ^ 8 ∷ n / 2 ^ 8 % 2 ^ 8 ∷ n / 2 ^ 16 % 2 ^ 8 ∷ n / 2 ^ 24 % 2 ^ 8 ∷ str

module _ {J H : Type 0} (writer : Writer J H) where
  abbrev pub add_item_or : J → (J → H → Built J × H) → Option J × H → Built J × H
  add_item_or json go (none, heap) = (deleted, writer.delete json heap)
  add_item_or json go (some item, heap) = go item heap

  -- The members one by one: `goto error` deletes the object, and the pointer is returned all the same.
  unfoldable pub add_members : List (Key × Value) → J → H → Built J × H
  add_members [] json heap = (whole json, heap)
  add_members ((key, value) ∷ rest) json heap =
      add_item_or json (λ j heap'. add_members rest (writer.add_item json key j) heap')
        (writer.create value heap)

  abbrev pub created : HelloMessage → Option J × H → Built J × H
  created msg (none, heap) = (null, heap)
  created msg (some json, heap) = add_members (members msg) json heap

  unfoldable pub hello_message_to_json : HelloMessage → H → Built J × H
  unfolding add_members
  hello_message_to_json msg heap = created msg (writer.create_object heap)

  -- Behind `malloc`, behind `cJSON_PrintUnformatted` and behind `hello_message_to_json`.
  abbrev pub copied : List ℕ → Bool × H → Serialized × H
  copied str (true, heap) = (serialized (prefixed str) (length str + 4), writer.free str heap)
  copied str (false, heap) = (failed, heap)

  abbrev pub printed : J → Option (List ℕ) × H → Serialized × H
  printed json (none, heap) = (failed, heap)
  printed json (some str, heap) =
      copied str (writer.malloc (length str + 4) (writer.delete json heap))

  abbrev pub built : Built J × H → Serialized × H
  built (null, heap) = (failed, heap)
  built (deleted, heap) = (use_after_free, heap)
  built (whole json, heap) = printed json (writer.print json heap)

  unfoldable pub hello_message_serialize : HelloMessage → H → Serialized × H
  unfolding hello_message_to_json
  hello_message_serialize msg heap = built (hello_message_to_json msg heap)

-- ===== src/Message/Settings.antt =====
-- The server's settings, `server_settings_message_deserialize` of components/lightsnapcast/snapcast.c.
-- Their text is read by cJSON, a library outside of the repository, which is a parameter.
use snapclient.Base.{ℕ, List, Option, none, some, Bool, false, if◌then◌else◌}

-- `server_settings_message_t`; an int32_t is its bit pattern.
pub record ServerSettings : Type 0 where
  pub buffer_ms : ℕ
  pub latency : ℕ
  pub volume : ℕ
  pub muted : Bool

-- The names of the members.
pub data Member : Type 0 where
  buffer_ms latency volume muted : Member

-- What the code uses of cJSON: `parse` of a C string, `has_error` whether there is an error position
-- after it failed, a member of an object, `valueint` of a number (`none` of anything else) and
-- `cJSON_IsTrue`.
pub record Json (J : Type 0) : Type 0 where
  pub parse : List ℕ → Option J
  pub has_error : List ℕ → Bool
  pub member : J → Member → Option J
  pub valueint : J → Option ℕ
  pub is_true : J → Bool

module _ {J : Type 0} (json : Json J) where
  -- A member of what was parsed; a null pointer has none.
  abbrev pub item : Option J → Member → Option J
  item none name = none
  item (some j) name = json.member j name

  -- A field is overwritten if the member is a number.
  abbrev pub number_or : ℕ → Option J → ℕ
  number_or old none = old
  number_or old (some v) = elim (json.valueint v) [ none ↦ old | some n ↦ n ]

  abbrev pub is_true_item : Option J → Bool
  is_true_item none = false
  is_true_item (some v) = json.is_true v

  abbrev pub read_members : ServerSettings → Option J → ServerSettings
  read_members msg j = record {
    buffer_ms = number_or msg.buffer_ms (item j buffer_ms);
    latency = number_or msg.latency (item j latency);
    volume = number_or msg.volume (item j volume);
    muted = is_true_item (item j muted);
  }

  -- The message is never null here.
  unfoldable pub server_settings_message_deserialize : ServerSettings → List ℕ → ℕ × ServerSettings
  server_settings_message_deserialize msg text = elim (json.parse text) [
    | none ↦ if json.has_error text then (1, msg) else (0, read_members msg none)
    | some j ↦ (0, read_members msg (some j))
  ]

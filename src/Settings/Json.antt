-- ===== src/Settings/Json.antt =====
-- The settings as JSON text, in components/settings_manager/settings_manager.c. cJSON is a library outside of
-- the repository, and a parameter.
use snapclient.Base.{
  ℕ, suc, List, [], ◌∷◌, ◌++◌, Option, none, some, Bool, ◌==◌, leb, not, if◌then◌else◌, length,
}
use snapclient.Settings.{
  EspErr, Nvs, Defaults, Manager, esp_ok, is_ok, invalid_arg, invalid_size, no_mem,
  settings_set_hostname, settings_set_mdns_enabled, settings_set_server_host,
  settings_set_server_port,
}
use snapclient.Settings.Get.{
  Answer, settings_get_hostname, settings_get_mdns_enabled, settings_get_server_host,
  settings_get_server_port,
}

-- The members that the code reads and writes.
pub data Member : Type 0 where
  hostname mdns_enabled server_host server_port dsp_available dac_available eq_available : Member

pub data Value : Type 0 where
  text : List ℕ → Value
  flag : Bool → Value
  number : ℕ → Value

-- `cJSON_CreateObject` with its members, printed without spaces, and `cJSON_Parse`; an item that is missing is
-- of no kind.
pub record SettingsJson (J : Type 0) : Type 0 where
  pub create : Bool
  pub print : List (Member × Value) → Option (List ℕ)
  pub parse : List ℕ → Option J
  pub string_item : Member → J → Option (List ℕ)
  pub bool_item : Member → J → Option Bool
  pub number_item : Member → J → Option ℕ

-- `CONFIG_USE_DSP_PROCESSOR`, `CONFIG_DAC_TAS5805M` and `CONFIG_DAC_TAS5805M_EQ_SUPPORT`.
pub record Features : Type 0 where
  pub dsp : Bool
  pub dac : Bool
  pub eq : Bool

abbrev pub string_member : Member → Answer (List ℕ) → List (Member × Value)
string_member m (esp_ok, some s) = (m, text s) ∷ []
string_member m (err, a) = []

abbrev pub flag_member : Member → Answer Bool → List (Member × Value)
flag_member m (esp_ok, some b) = (m, flag b) ∷ []
flag_member m (err, a) = []

-- An empty host and the port 0 are left out.
abbrev pub host_member : Answer (List ℕ) → List (Member × Value)
host_member (esp_ok, some (c ∷ host)) = (server_host, text (c ∷ host)) ∷ []
host_member (err, a) = []

abbrev pub port_member : Answer ℕ → List (Member × Value)
port_member (esp_ok, some (suc port)) = (server_port, number (suc port)) ∷ []
port_member (err, a) = []

-- The text, if the buffer has a place for it and the zero at its end.
abbrev pub printed : ℕ → Option (List ℕ) → Answer (List ℕ)
printed max_len none = (no_mem, none)
printed max_len (some json) =
    if leb max_len (length json) then (invalid_size, none) else (esp_ok, some json)

module _ {N J : Type 0} (nvs : Nvs N) (defaults : Defaults) (json : SettingsJson J) where
  abbrev pub feature_members : Features → List (Member × Value)
  feature_members f =
      (dsp_available, flag f.dsp) ∷ (dac_available, flag f.dac) ∷ (eq_available, flag f.eq) ∷ []

  unfoldable pub json_members : Features → Manager N → List (Member × Value) × Manager N
  json_members f m0 =
      let (name, m1) = settings_get_hostname nvs defaults 64 m0 in
      let (mdns, m2) = settings_get_mdns_enabled nvs defaults m1 in
      let (host, m3) = settings_get_server_host nvs defaults 128 m2 in
      let (port, m4) = settings_get_server_port nvs defaults m3 in
      (
        string_member hostname name
            ++ (flag_member mdns_enabled mdns
                ++ (host_member host ++ (port_member port ++ feature_members f))),
        m4,
      )

  unfoldable pub settings_get_json : Features → ℕ → Manager N → Answer (List ℕ) × Manager N
  unfolding json_members
  settings_get_json f max_len m =
      if max_len == 0
      then ((invalid_arg, none), m)
      else if not json.create
      then ((no_mem, none), m)
      else let (members, m') = json_members f m in (printed max_len (json.print members), m')

  -- The error of the last save that failed.
  abbrev pub keep_error : EspErr → EspErr × Manager N → EspErr × Manager N
  keep_error err (save_err, m) = (if is_ok save_err then err else save_err, m)

  abbrev pub update :
      {A : Type 0}
      → Option A
      → (A → Manager N → EspErr × Manager N)
      → EspErr × Manager N
      → EspErr × Manager N
  update none set r = r
  update (some a) set (err, m) = keep_error err (set a m)

  abbrev pub update_all : (ℕ → Bool) → J → Manager N → EspErr × Manager N
  update_all isalnum root m =
      update (json.number_item server_port root) (settings_set_server_port nvs) (
        update (json.string_item server_host root)
          (λ host. settings_set_server_host nvs (some host))
          (update (json.bool_item mdns_enabled root) (settings_set_mdns_enabled nvs) (
            update (json.string_item hostname root)
              (λ name. settings_set_hostname nvs isalnum (some name)) (esp_ok, m))))

  unfoldable pub settings_set_from_json :
      (ℕ → Bool) → Option (List ℕ) → Manager N → EspErr × Manager N
  settings_set_from_json isalnum none m = (invalid_arg, m)
  settings_set_from_json isalnum (some json_in) m = elim (json.parse json_in) [
    | none ↦ (invalid_arg, m)
    | some root ↦ update_all isalnum root m
  ]

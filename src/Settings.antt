-- ===== src/Settings.antt =====
-- components/settings_manager/settings_manager.c: the settings that are kept in the flash memory. A string is
-- the list of its characters, without the zero at its end.
pub mod Get
pub mod Json
pub mod Hostname
pub mod Saves
pub mod Stored
use snapclient.Base.{
  ℕ, zero, suc, ◌-◌, List, [], ◌∷◌, Option, none, some, Bool, true, false, ltb, ◌==◌, ◌&&◌, ◌||◌,
  not, if◌then◌else◌, length, take, get_or,
}

-- `esp_err_t`; the codes that the code does not look at are `failed`.
pub data EspErr : Type 0 where
  esp_ok invalid_arg invalid_state invalid_size no_mem timeout not_found : EspErr
  failed : ℕ → EspErr

abbrev pub is_ok : EspErr → Bool
is_ok esp_ok = true
is_ok err = false

abbrev pub is_not_found : EspErr → Bool
is_not_found not_found = true
is_not_found err = false

-- The keys of the name space.
pub data Key : Type 0 where
  key_hostname key_mdns key_server_host key_server_port : Key

-- The NVS library on its memory `N`, and whether the mutex is got in time. `open_read` and `open_write` are
-- `nvs_open` in the two modes, and `get_str` gets the length of the buffer.
pub record Nvs (N : Type 0) : Type 0 where
  pub lock : N → Bool × N
  pub create_mutex : Bool
  pub open_read : N → EspErr
  pub open_write : N → EspErr × N
  pub get_str : Key → ℕ → N → EspErr × List ℕ
  pub get_i32 : Key → N → EspErr × ℕ
  pub set_str : Key → List ℕ → N → EspErr × N
  pub set_i32 : Key → ℕ → N → EspErr × N
  pub erase_key : Key → N → EspErr × N
  pub commit : N → EspErr × N

-- The options of the build, with the defaults: `CONFIG_SNAPCLIENT_NAME`, or esp32-snapclient without it,
-- `CONFIG_SNAPSERVER_USE_MDNS`, `CONFIG_SNAPSERVER_HOST` and `CONFIG_SNAPSERVER_PORT`.
pub record Defaults : Type 0 where
  pub name : List ℕ
  pub use_mdns : Bool
  pub server_host : Option (List ℕ)
  pub server_port : Option ℕ

-- `hostname_mutex` is there or not.
pub record Manager (N : Type 0) : Type 0 where
  pub mutex : Bool
  pub store : N

abbrev pub hyphen : ℕ
hyphen = 45

-- The loop over the characters; `isalnum` is that of the C library.
abbrev pub all_valid : (ℕ → Bool) → List ℕ → Bool
all_valid isalnum [] = true
all_valid isalnum (c ∷ cs) =
    if not (isalnum c) && not (c == hyphen) then false else all_valid isalnum cs

-- A null pointer is `none`.
unfoldable pub validate_hostname : (ℕ → Bool) → Option (List ℕ) → Bool
validate_hostname isalnum none = false
validate_hostname isalnum (some hostname) =
    let len = length hostname in
    if len == 0 || ltb 63 len
    then false
    else if get_or hostname 0 0 == hyphen || get_or hostname (len - 1) 0 == hyphen
    then false
    else all_valid isalnum hostname

module _ {N : Type 0} (nvs : Nvs N) where
  unfoldable pub settings_manager_init : Manager N → EspErr × Manager N
  settings_manager_init m =
      if m.mutex
      then (esp_ok, m)
      else if nvs.create_mutex
      then (esp_ok, record m { mutex = true })
      else (no_mem, m)

  -- What stands between taking the mutex and giving it back.
  abbrev pub with_store : {A : Type 0} → Manager N → A × N → A × Manager N
  with_store m (a, n) = (a, record m { store = n })

  abbrev pub after_lock : {A : Type 0} → A → (N → A × N) → Manager N → Bool × N → A × Manager N
  after_lock refused body m (false, n) = (refused, record m { store = n })
  after_lock refused body m (true, n) = with_store m (body n)

  abbrev pub locked : (N → EspErr × N) → Manager N → EspErr × Manager N
  locked body m =
      if m.mutex then after_lock timeout body m (nvs.lock m.store) else (invalid_state, m)

  abbrev pub commit_if_ok : EspErr × N → EspErr × N
  commit_if_ok (err, n) = if is_ok err then nvs.commit n else (err, n)

  -- Open, write, and commit what was written.
  abbrev pub save_opened : (N → EspErr × N) → EspErr × N → EspErr × N
  save_opened write (err, n) = if is_ok err then commit_if_ok (write n) else (err, n)

  unfoldable pub save : (N → EspErr × N) → N → EspErr × N
  save write n = save_opened write (nvs.open_write n)

  -- Erase a key, if it is there; the result of `nvs_commit` is not used.
  abbrev pub erased : EspErr × N → EspErr × N
  erased (err, n) = if is_ok err || is_not_found err then (esp_ok, (nvs.commit n).1) else (err, n)

  abbrev pub clear_opened : Key → EspErr × N → EspErr × N
  clear_opened key (err, n) =
      if is_ok err
      then erased (nvs.erase_key key n)
      else if is_not_found err
      then (esp_ok, n)
      else (err, n)

  unfoldable pub clear : Key → N → EspErr × N
  clear key n = clear_opened key (nvs.open_write n)

  unfoldable pub settings_set_hostname :
      (ℕ → Bool) → Option (List ℕ) → Manager N → EspErr × Manager N
  unfolding save
  settings_set_hostname isalnum none m = (invalid_arg, m)
  settings_set_hostname isalnum (some name) m =
      if validate_hostname isalnum (some name)
      then locked (save (nvs.set_str key_hostname name)) m
      else (invalid_arg, m)

  unfoldable pub settings_clear_hostname : Manager N → EspErr × Manager N
  unfolding clear
  settings_clear_hostname m = locked (clear key_hostname) m

  unfoldable pub settings_set_mdns_enabled : Bool → Manager N → EspErr × Manager N
  unfolding save
  settings_set_mdns_enabled enabled m =
      locked (save (nvs.set_i32 key_mdns (if enabled then 1 else 0))) m

  unfoldable pub settings_clear_mdns_enabled : Manager N → EspErr × Manager N
  unfolding clear
  settings_clear_mdns_enabled m = locked (clear key_mdns) m

  -- No host, or an empty one, erases the key.
  abbrev pub host_write : Option (List ℕ) → N → EspErr × N
  host_write none n = nvs.erase_key key_server_host n
  host_write (some []) n = nvs.erase_key key_server_host n
  host_write (some (c ∷ host)) n = nvs.set_str key_server_host (c ∷ host) n

  unfoldable pub settings_set_server_host : Option (List ℕ) → Manager N → EspErr × Manager N
  unfolding save
  settings_set_server_host host m = locked (save (host_write host)) m

  unfoldable pub settings_clear_server_host : Manager N → EspErr × Manager N
  settings_clear_server_host m = settings_set_server_host none m

  unfoldable pub settings_set_server_port : ℕ → Manager N → EspErr × Manager N
  unfolding save
  settings_set_server_port port m = locked (save (nvs.set_i32 key_server_port port)) m

  unfoldable pub settings_clear_server_port : Manager N → EspErr × Manager N
  unfolding clear
  settings_clear_server_port m = locked (clear key_server_port) m

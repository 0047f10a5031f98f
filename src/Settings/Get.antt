-- ===== src/Settings/Get.antt =====
-- The reads of components/settings_manager/settings_manager.c, which fall back on the defaults of the build.
use snapclient.Base.{
  ℕ, ◌-◌, List, [], Option, none, some, Bool, true, false, ◌==◌, not, if◌then◌else◌, take,
}
use snapclient.Settings.{
  EspErr, Nvs, Defaults, Manager, esp_ok, invalid_arg, invalid_state, timeout, is_ok, is_not_found,
  key_hostname, key_mdns, key_server_host, key_server_port,
}

-- The result, and what is assigned through the pointer.
abbrev pub Answer : Type 0 → Type 0
Answer A = EspErr × Option A

-- `strncpy` into a buffer, and the zero at its end.
abbrev pub fitted : ℕ → List ℕ → List ℕ
fitted max_len text = take (max_len - 1) text

module _ {N : Type 0} (nvs : Nvs N) (defaults : Defaults) where
  abbrev pub read_after_lock :
      {A : Type 0} → (N → Answer A) → Manager N → Bool × N → Answer A × Manager N
  read_after_lock body m (false, n) = ((timeout, none), record m { store = n })
  read_after_lock body m (true, n) = (body n, record m { store = n })

  abbrev pub read_locked : {A : Type 0} → (N → Answer A) → Manager N → Answer A × Manager N
  read_locked body m =
      if m.mutex then read_after_lock body m (nvs.lock m.store) else ((invalid_state, none), m)

  -- Any error of the read leads to the default.
  abbrev pub string_or : List ℕ → EspErr × List ℕ → Answer (List ℕ)
  string_or default (err, text) = (esp_ok, some (if is_ok err then text else default))

  abbrev pub hostname_opened : ℕ → N → EspErr → Answer (List ℕ)
  hostname_opened max_len n err =
      let default = fitted max_len defaults.name in
      if is_ok err
      then string_or default (nvs.get_str key_hostname max_len n)
      else (esp_ok, some default)

  unfoldable pub settings_get_hostname : ℕ → Manager N → Answer (List ℕ) × Manager N
  settings_get_hostname max_len m =
      if max_len == 0
      then ((invalid_arg, none), m)
      else read_locked (λ n. hostname_opened max_len n (nvs.open_read n)) m

  abbrev pub mdns_read : EspErr × ℕ → Answer Bool
  mdns_read (err, v) = (esp_ok, some (if is_ok err then not (v == 0) else defaults.use_mdns))

  abbrev pub mdns_opened : N → EspErr → Answer Bool
  mdns_opened n err =
      if is_ok err then mdns_read (nvs.get_i32 key_mdns n) else (esp_ok, some defaults.use_mdns)

  unfoldable pub settings_get_mdns_enabled : Manager N → Answer Bool × Manager N
  settings_get_mdns_enabled m = read_locked (λ n. mdns_opened n (nvs.open_read n)) m

  -- Without a default the host is empty.
  abbrev pub host_default : ℕ → List ℕ
  host_default max_len = elim defaults.server_host [ none ↦ [] | some host ↦ fitted max_len host ]

  -- Here an error of the read is one of the function, unless there is no such key.
  abbrev pub host_read : ℕ → EspErr × List ℕ → Answer (List ℕ)
  host_read max_len (err, text) =
      if is_ok err
      then (esp_ok, some text)
      else if is_not_found err
      then (esp_ok, some (host_default max_len))
      else (err, none)

  abbrev pub host_opened : ℕ → N → EspErr → Answer (List ℕ)
  host_opened max_len n err =
      if is_ok err
      then host_read max_len (nvs.get_str key_server_host max_len n)
      else (esp_ok, some (host_default max_len))

  unfoldable pub settings_get_server_host : ℕ → Manager N → Answer (List ℕ) × Manager N
  settings_get_server_host max_len m =
      if max_len == 0
      then ((invalid_arg, none), m)
      else read_locked (λ n. host_opened max_len n (nvs.open_read n)) m

  abbrev pub port_default : ℕ
  port_default = elim defaults.server_port [ none ↦ 0 | some port ↦ port ]

  abbrev pub port_read : EspErr × ℕ → Answer ℕ
  port_read (err, v) = (esp_ok, some (if is_ok err then v else port_default))

  abbrev pub port_opened : N → EspErr → Answer ℕ
  port_opened n err =
      if is_ok err then port_read (nvs.get_i32 key_server_port n) else (esp_ok, some port_default)

  unfoldable pub settings_get_server_port : Manager N → Answer ℕ × Manager N
  settings_get_server_port m = read_locked (λ n. port_opened n (nvs.open_read n)) m

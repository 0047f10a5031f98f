-- ===== src/Settings/Stored.antt =====
-- What components/settings_manager/settings_manager.c saves is what it reads later.
use snapclient.Base.{
  ℕ, ◌<◌, ◌==◌, ◌≡◌, ◌≢◌, inl, inr, refl, ap, ◌∙◌, arith, List, ◌∷◌, Option, none, some, Bool, true,
  false, Bool-cases, not, if◌then◌else◌, length,
}
use snapclient.Settings.{
  EspErr, Key, Nvs, Defaults, Manager, esp_ok, not_found, clear, clear_opened, erased,
  settings_clear_server_host, settings_clear_server_port, timeout, is_ok, key_hostname, key_mdns,
  key_server_host, key_server_port, save, save_opened, commit_if_ok, after_lock, host_write,
  validate_hostname, settings_set_hostname, settings_set_mdns_enabled, settings_set_server_host,
  settings_set_server_port,
}
use snapclient.Settings.Get.{
  Answer, read_locked, fitted, string_or, hostname_opened, mdns_opened, mdns_read, host_opened,
  host_read, port_opened, port_read, settings_get_hostname, settings_get_mdns_enabled,
  settings_get_server_host, settings_get_server_port,
}
use snapclient.Settings.Saves.{
  Content, string, integer, Stores, IsNvs, is_false, save-Stores, locked-Stores,
}

-- A value for one of the settings; a host is not empty.
pub data Change : Type 0 where
  name : List ℕ → Change
  mdns : Bool → Change
  host : ℕ → List ℕ → Change
  port : ℕ → Change

abbrev pub key_of : Change → Key
key_of (name v) = key_hostname
key_of (mdns v) = key_mdns
key_of (host c cs) = key_server_host
key_of (port v) = key_server_port

abbrev pub content_of : Change → Content
content_of (name v) = string v
content_of (mdns v) = integer (if v then 1 else 0)
content_of (host c cs) = string (c ∷ cs)
content_of (port v) = integer v

-- Save one setting.
abbrev pub apply : {N : Type 0} → Nvs N → (ℕ → Bool) → Change → Manager N → EspErr × Manager N
apply nvs isalnum (name v) m = settings_set_hostname nvs isalnum (some v) m
apply nvs isalnum (mdns v) m = settings_set_mdns_enabled nvs v m
apply nvs isalnum (host c cs) m = settings_set_server_host nvs (some (c ∷ cs)) m
apply nvs isalnum (port v) m = settings_set_server_port nvs v m

-- The value is read if the mutex is got in time, and otherwise none is.
abbrev pub Reads : {A : Type 0} → A → Bool → Answer A → Type 0
Reads a got answer = answer ≡ (if got then (esp_ok, some a) else (timeout, none))

-- What the function that reads the setting answers with a buffer of this length.
abbrev pub Shows : {N : Type 0} → Nvs N → Defaults → ℕ → Change → Manager N → Type 0
Shows nvs defaults max_len (name v) m =
    Reads v (nvs.lock m.store).0 (settings_get_hostname nvs defaults max_len m).0
Shows nvs defaults max_len (mdns v) m =
    Reads v (nvs.lock m.store).0 (settings_get_mdns_enabled nvs defaults m).0
Shows nvs defaults max_len (host c cs) m =
    Reads (c ∷ cs) (nvs.lock m.store).0 (settings_get_server_host nvs defaults max_len m).0
Shows nvs defaults max_len (port v) m =
    Reads v (nvs.lock m.store).0 (settings_get_server_port nvs defaults m).0

abbrev pub Fits : ℕ → Change → Type 0
Fits max_len (name v) = length v < max_len
Fits max_len (mdns v) = Unit
Fits max_len (host c cs) = length (c ∷ cs) < max_len
Fits max_len (port v) = Unit

flag_back : (v : Bool) → not ((if v then 1 else 0) == 0) ≡ v
flag_back true = refl
flag_back false = refl

module _ {N : Type 0} (nvs : Nvs N) (content : Key → N → Option Content) where
  apply-Stores :
      (isalnum : ℕ → Bool) (change : Change) (m : Manager N)
      → IsNvs nvs content
      → let (err, m') = apply nvs isalnum change m in
        (m'.mutex ≡ m.mutex)
        × (is_ok err ≡ true → m.mutex ≡ true)
        × Stores content (key_of change) (content_of change) m.store (err, m'.store)
  unfolding settings_set_hostname settings_set_mdns_enabled settings_set_server_host
      settings_set_server_port
  apply-Stores isalnum (name v) m law = elim (Bool-cases (validate_hostname isalnum (some v))) [
    | inl valid ↦ rw valid (
        locked-Stores nvs content key_hostname (string v) (save nvs (nvs.set_str key_hostname v)) m
          law
          (λ n.
            save-Stores nvs content key_hostname (string v) (nvs.set_str key_hostname v) n law
              (law.str_stores key_hostname v)))
    | inr wrong ↦
        rw wrong
          (refl, (λ e. absurd (is_false e)), ((λ e. absurd (is_false e)), (λ other differs. refl)))
  ]
  apply-Stores isalnum (mdns v) m law =
      let n = if v then 1 else 0 in
      locked-Stores nvs content key_mdns (integer n) (save nvs (nvs.set_i32 key_mdns n)) m law (λ s.
        save-Stores nvs content key_mdns (integer n) (nvs.set_i32 key_mdns n) s law
          (law.i32_stores key_mdns n))
  apply-Stores isalnum (host c cs) m law =
      locked-Stores nvs content key_server_host (string (c ∷ cs))
        (save nvs (host_write nvs (some (c ∷ cs)))) m law
        (λ n.
          save-Stores nvs content key_server_host (string (c ∷ cs)) (host_write nvs (some (c ∷ cs)))
            n law (law.str_stores key_server_host (c ∷ cs)))
  apply-Stores isalnum (port v) m law =
      locked-Stores nvs content key_server_port (integer v)
        (save nvs (nvs.set_i32 key_server_port v)) m law
        (λ n.
          save-Stores nvs content key_server_port (integer v) (nvs.set_i32 key_server_port v) n law
            (law.i32_stores key_server_port v))

  locked-Reads :
      {A : Type 0} (defaults : Defaults) (a : A) (body : N → Answer A) (m : Manager N)
      → m.mutex ≡ true
      → body (nvs.lock m.store).1 ≡ (esp_ok, some a)
      → Reads a (nvs.lock m.store).0 (read_locked nvs defaults body m).0
  locked-Reads defaults a body m there e = elim (Bool-cases (nvs.lock m.store).0) [
    | inl got ↦ rw (there, got) e
    | inr late ↦ rw (there, late) refl
  ]

  stored-Shows :
      (defaults : Defaults) (max_len : ℕ) (change : Change) (m : Manager N)
      → IsNvs nvs content
      → m.mutex ≡ true
      → content (key_of change) m.store ≡ some (content_of change)
      → Fits max_len change
      → Shows nvs defaults max_len change m
  unfolding settings_get_hostname settings_get_mdns_enabled settings_get_server_host
      settings_get_server_port
  stored-Shows defaults max_len (name v) m law there h fits =
      let n = (nvs.lock m.store).1 in
      let k = law.lock_keeps m.store key_hostname ∙ h in
      let o = law.opens key_hostname (string v) n k in
      let g = law.str_stored key_hostname v max_len n k fits in
      let some_place : (max_len == 0) ≡ false = ground (arith, fits) in
      rw some_place (
        locked-Reads defaults v (λ s. hostname_opened nvs defaults max_len s (nvs.open_read s)) m
          there
          (ap (hostname_opened nvs defaults max_len n) o
            ∙ ap (string_or nvs defaults (fitted max_len defaults.name)) g))
  stored-Shows defaults max_len (mdns v) m law there h fits =
      let n = (nvs.lock m.store).1 in
      let k = law.lock_keeps m.store key_mdns ∙ h in
      let o = law.opens key_mdns (integer (if v then 1 else 0)) n k in
      let g = law.i32_stored key_mdns (if v then 1 else 0) n k in
      locked-Reads defaults v (λ s. mdns_opened nvs defaults s (nvs.open_read s)) m there
        (ap (mdns_opened nvs defaults n) o
          ∙ ap (mdns_read nvs defaults) g
          ∙ ap (λ b. (esp_ok, some b)) (flag_back v))
  stored-Shows defaults max_len (host c cs) m law there h fits =
      let n = (nvs.lock m.store).1 in
      let k = law.lock_keeps m.store key_server_host ∙ h in
      let o = law.opens key_server_host (string (c ∷ cs)) n k in
      let g = law.str_stored key_server_host (c ∷ cs) max_len n k fits in
      let some_place : (max_len == 0) ≡ false = ground (arith, fits) in
      rw some_place (
        locked-Reads defaults (c ∷ cs) (λ s. host_opened nvs defaults max_len s (nvs.open_read s)) m
          there (ap (host_opened nvs defaults max_len n) o ∙ ap (host_read nvs defaults max_len) g))
  stored-Shows defaults max_len (port v) m law there h fits =
      let n = (nvs.lock m.store).1 in
      let k = law.lock_keeps m.store key_server_port ∙ h in
      let o = law.opens key_server_port (integer v) n k in
      let g = law.i32_stored key_server_port v n k in
      locked-Reads defaults v (λ s. port_opened nvs defaults s (nvs.open_read s)) m there
        (ap (port_opened nvs defaults n) o ∙ ap (port_read nvs defaults) g)

  -- A setting that is saved with success is what is read later, with a buffer that it fits in, if the mutex is got
  -- in time; if it is not, the answer is a timeout. The other settings are as they were.
  pub apply-Shows :
      (isalnum : ℕ → Bool) (defaults : Defaults) (max_len : ℕ) (change : Change) (m : Manager N)
      → IsNvs nvs content
      → Fits max_len change
      → (apply nvs isalnum change m).0 ≡ esp_ok
      → Shows nvs defaults max_len change (apply nvs isalnum change m).1
        × ((other : Key)
            → other ≢ key_of change
            → content other (apply nvs isalnum change m).1.store ≡ content other m.store)
  apply-Shows isalnum defaults max_len change m law fits e =
      let (same, there, (stored, others)) = apply-Stores isalnum change m law in
      let good : is_ok (apply nvs isalnum change m).0 ≡ true = ap is_ok e in
      (
        stored-Shows defaults max_len change (apply nvs isalnum change m).1 law (same ∙ there good)
            (stored good) fits,
        others,
      )

-- Where there is no host, to clear it is an error, the one of `nvs_erase_key`; for the other settings it is not.
pub settings_clear_server_host-missing :
    {N : Type 0} (nvs : Nvs N) (m : Manager N) (n1 n2 n3 n4 : N)
    → m.mutex ≡ true
    → nvs.lock m.store ≡ (true, n1)
    → nvs.open_write n1 ≡ (esp_ok, n2)
    → nvs.erase_key key_server_host n2 ≡ (not_found, n3)
    → nvs.erase_key key_server_port n2 ≡ (not_found, n4)
    → ((settings_clear_server_host nvs m).0 ≡ not_found)
      × ((settings_clear_server_port nvs m).0 ≡ esp_ok)
unfolding settings_clear_server_host settings_clear_server_port settings_set_server_host save clear
settings_clear_server_host-missing nvs m n1 n2 n3 n4 there got opened host_missing port_missing =
    let ready : Manager _ = record { mutex = true; store = m.store } in
    let by_host : (save nvs (host_write nvs none) n1).0 ≡ not_found =
      ap (λ r. (save_opened nvs (host_write nvs none) r).0) opened
      ∙ ap (λ r. (commit_if_ok nvs r).0) host_missing in
    let by_port : (clear nvs key_server_port n1).0 ≡ esp_ok =
      ap (λ r. (clear_opened nvs key_server_port r).0) opened
      ∙ ap (λ r. (erased nvs r).0) port_missing in
    (
      rw there (
          ap (λ r. (after_lock nvs timeout (save nvs (host_write nvs none)) ready r).0) got
          ∙ by_host),
      rw there
          (ap (λ r. (after_lock nvs timeout (clear nvs key_server_port) ready r).0) got ∙ by_port),
    )

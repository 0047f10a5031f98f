-- ===== src/Examples/Settings.antt =====
-- The stored settings on a concrete flash memory.
use snapclient.Base.{
  ℕ, ◌≡◌, ◌≢◌, ◌==◌, ◌↔◌, refl, ap, arith, List, [], ◌∷◌, Option, none, some, Bool, true,
  Bool-cases, leb, ◌&&◌, ◌||◌, if◌then◌else◌, inl, inr,
}
use snapclient.Settings.{
  EspErr, Key, Nvs, Defaults, Manager, esp_ok, not_found, key_hostname, key_mdns, key_server_host,
  key_server_port, validate_hostname, settings_set_hostname, save,
}
use snapclient.Settings.Hostname.{IsHostname, validate_hostname_iff}
use snapclient.Settings.Saves.{Content, string, integer, IsNvs}
use snapclient.Settings.Stored.{name, Shows, apply, apply-Shows}

abbrev pub Flash : Type 0
Flash = Key → Option Content

abbrev pub key_number : Key → ℕ
key_number key_hostname = 0
key_number key_mdns = 1
key_number key_server_host = 2
key_number key_server_port = 3

key_number-injective : (a b : Key) → key_number a ≡ key_number b → a ≡ b
key_number-injective key_hostname key_hostname e = refl
key_number-injective key_mdns key_mdns e = refl
key_number-injective key_server_host key_server_host e = refl
key_number-injective key_server_port key_server_port e = refl
key_number-injective a b e = absurd (omega arith)

abbrev pub written : Key → Option Content → Flash → Flash
written key c flash k = if key_number k == key_number key then c else flash k

written-same : (key : Key) (c : Option Content) (flash : Flash) → written key c flash key ≡ c
written-same key c flash =
    let e : (key_number key == key_number key) ≡ true = ground arith in rw e refl

written-other :
    (key : Key) (c : Option Content) (flash : Flash) (other : Key)
    → other ≢ key
    → written key c flash other ≡ flash other
written-other key c flash other differs = elim (Bool-cases (key_number other == key_number key)) [
  | inl e ↦ absurd (differs (key_number-injective other key (ground (arith, e))))
  | inr e ↦ rw e refl
]

abbrev pub text_of : Option Content → EspErr × List ℕ
text_of none = (not_found, [])
text_of (some (string v)) = (esp_ok, v)
text_of (some (integer v)) = (not_found, [])

abbrev pub number_of : Option Content → EspErr × ℕ
number_of none = (not_found, 0)
number_of (some (string v)) = (not_found, 0)
number_of (some (integer v)) = (esp_ok, v)

abbrev pub erase_answer : Option Content → EspErr
erase_answer none = not_found
erase_answer (some c) = esp_ok

abbrev pub flash_nvs : Nvs Flash
flash_nvs = record {
  lock = λ flash. (true, flash);
  create_mutex = true;
  open_read = λ flash. esp_ok;
  open_write = λ flash. (esp_ok, flash);
  get_str = λ key max_len flash. text_of (flash key);
  get_i32 = λ key flash. number_of (flash key);
  set_str = λ key v flash. (esp_ok, written key (some (string v)) flash);
  set_i32 = λ key v flash. (esp_ok, written key (some (integer v)) flash);
  erase_key = λ key flash. (erase_answer (flash key), written key none flash);
  commit = λ flash. (esp_ok, flash);
}

pub flash_nvs-IsNvs : IsNvs flash_nvs (λ key flash. flash key)
flash_nvs-IsNvs = record {
  lock_keeps = λ flash key. refl;
  open_keeps = λ flash key. refl;
  commit_keeps = λ flash key. refl;
  str_stores = λ key v flash.
      ((λ _. written-same key (some (string v)) flash), written-other key (some (string v)) flash);
  i32_stores = λ key v flash. (
    (λ _. written-same key (some (integer v)) flash),
    written-other key (some (integer v)) flash,
  );
  opens = λ key c flash e. refl;
  str_stored = λ key v max_len flash e fits. ap text_of e;
  i32_stored = λ key v flash e. ap number_of e;
}

abbrev pub fresh : Manager Flash
fresh = record { mutex = true; store = λ key. none }

abbrev pub build : Defaults
build = record {
  name = 101 ∷ 115 ∷ 112 ∷ [];
  use_mdns = true;
  server_host = none;
  server_port = none;
}

-- Letters and digits of ASCII.
abbrev pub ascii_alnum : ℕ → Bool
ascii_alnum c = leb 48 c && leb c 57 || leb 65 c && leb c 90 || leb 97 c && leb c 122

-- den-1
abbrev pub den : List ℕ
den = 100 ∷ 101 ∷ 110 ∷ 45 ∷ 49 ∷ []

apply-Shows_example :
    Shows flash_nvs build 64 (name den) (apply flash_nvs ascii_alnum (name den) fresh).1
    × ((other : Key)
        → other ≢ key_hostname
        → (apply flash_nvs ascii_alnum (name den) fresh).1.store other ≡ none)
unfolding settings_set_hostname validate_hostname save
apply-Shows_example =
    apply-Shows flash_nvs (λ key flash. flash key) ascii_alnum build 64 (name den) fresh
      flash_nvs-IsNvs (omega arith) refl

validate_hostname_iff_example :
    (validate_hostname ascii_alnum (some den) ≡ true) ↔ IsHostname ascii_alnum den
validate_hostname_iff_example = validate_hostname_iff ascii_alnum den

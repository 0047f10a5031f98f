-- ===== src/Web/Handlers.antt =====
-- The handlers of components/ui_http_server/ui_http_server.c that change, clear and show one setting. The headers of a
-- response are left out.
pub mod Stored
pub mod Overrun
use Prim.Native.String.{String}
use snapclient.Base.{
  ℕ, zero, suc, List, [], ◌∷◌, Option, none, some, Bool, true, false, ◌==◌, not, if◌then◌else◌,
  take,
}
use snapclient.Base.Int.{ℤ, pos, negsuc}
use snapclient.Base.Text.{codes, same_text}
use snapclient.Settings.{
  EspErr, Nvs, Defaults, Manager, is_ok, settings_set_hostname, settings_set_server_host,
  settings_set_mdns_enabled, settings_set_server_port, settings_clear_hostname,
  settings_clear_mdns_enabled, settings_clear_server_host, settings_clear_server_port,
}
use snapclient.Settings.Get.{
  Answer, settings_get_hostname, settings_get_mdns_enabled, settings_get_server_host,
  settings_get_server_port,
}
use snapclient.Settings.Json.{SettingsJson, Features, settings_get_json}
use snapclient.Web.Url.{
  Strtol, to_int32, url_decode, c_string, Found, absent, overrun, found, find_key_value,
}

pub data Status : Type 0 where
  http_ok http_bad_request http_not_found http_server_error http_unavailable : Status

-- The status and the body; or memory behind a buffer of the handler is written.
pub data Reply : Type 0 where
  reply : Status → List ℕ → Reply
  overran : Reply

abbrev pub says : Status → String → Reply
says status text = reply status (codes text)

-- `URL_t`, which is sent to `http_server_task`.
pub record UrlParam : Type 0 where
  pub key : List ℕ
  pub int_value : ℕ

-- A value is used if it is there and not empty.
abbrev pub on_value : {R : Type 0} → R → R → (List ℕ → R) → Found → R
on_value missing broken use_it absent = missing
on_value missing broken use_it overrun = broken
on_value missing broken use_it (found []) = missing
on_value missing broken use_it (found (c ∷ value)) = use_it (c ∷ value)

abbrev pub is_zero : ℤ → Bool
is_zero (pos n) = n == 0
is_zero (negsuc n) = false

abbrev pub server_error : Reply
server_error = says http_server_error "error"

module _ {N : Type 0} where
  abbrev pub done_or : Reply → EspErr × Manager N → Reply × Manager N
  done_or bad (err, m) = (if is_ok err then says http_ok "ok" else bad, m)

module _ {N Q : Type 0} (isalnum : ℕ → Bool) (strtol : Strtol) (nvs : Nvs N)
    (send : UrlParam → Q → Bool × Q) where
  abbrev pub keep_queue : Q → Reply × Manager N → Reply × Manager N × Q
  keep_queue q (r, m) = (r, m, q)

  abbrev pub sent_reply : Manager N → Bool × Q → Reply × Manager N × Q
  sent_reply m (true, q) = (says http_ok "ok", m, q)
  sent_reply m (false, q) = (says http_unavailable "Queue full, try again", m, q)

  -- Both parameters are there.
  unfoldable pub set_param : List ℕ → List ℕ → Manager N → Q → Reply × Manager N × Q
  set_param param value m q =
      if same_text param (codes "hostname")
      then keep_queue q (
          done_or (says http_bad_request "Invalid hostname")
            (settings_set_hostname nvs isalnum (some (c_string (url_decode strtol 64 value))) m))
      else if same_text param (codes "snapserver_host")
      then keep_queue q (
          done_or server_error
            (settings_set_server_host nvs (some (c_string (url_decode strtol 128 value))) m))
      else if same_text param (codes "snapserver_use_mdns")
      then keep_queue q
          (done_or server_error (settings_set_mdns_enabled nvs (not (is_zero (strtol 10 value))) m))
      else if same_text param (codes "snapserver_port")
      then keep_queue q
          (done_or server_error (settings_set_server_port nvs (to_int32 (strtol 10 value)) m))
      else sent_reply m
          (send (record { key = take 15 param; int_value = to_int32 (strtol 10 value) }) q)

  unfoldable pub root_post_handler : List ℕ → Manager N → Q → Reply × Manager N × Q
  unfolding set_param
  root_post_handler uri m q =
      let ignored : Reply × Manager N × Q = (says http_ok "ok", m, q) in
      let broken : Reply × Manager N × Q = (overran, m, q) in
      on_value ignored broken
        (λ param.
          on_value ignored broken (λ value. set_param param value m q)
            (find_key_value (codes "value=") uri 64))
        (find_key_value (codes "param=") uri 16)

module _ {N : Type 0} (nvs : Nvs N) where
  unfoldable pub clear_param : List ℕ → Manager N → Reply × Manager N
  clear_param param m =
      if same_text param (codes "hostname")
      then done_or server_error (settings_clear_hostname nvs m)
      else if same_text param (codes "snapserver_use_mdns")
      then done_or server_error (settings_clear_mdns_enabled nvs m)
      else if same_text param (codes "snapserver_host")
      then done_or server_error (settings_clear_server_host nvs m)
      else if same_text param (codes "snapserver_port")
      then done_or server_error (settings_clear_server_port nvs m)
      else (says http_bad_request "Unknown parameter", m)

  unfoldable pub root_delete_handler : List ℕ → Manager N → Reply × Manager N
  unfolding clear_param
  root_delete_handler uri m =
      on_value (says http_bad_request "Missing param", m) (overran, m)
        (λ param. clear_param param m) (find_key_value (codes "param=") uri 32)

-- `snprintf` of an int, by its bit pattern, and the value of a parameter of the sound's filters, which stands in the
-- flash memory.
module _ {N : Type 0} (nvs : Nvs N) (defaults : Defaults) (decimal : ℕ → List ℕ)
    (load_flow_param : List ℕ → Option ℕ) where
  abbrev pub shown_text : Reply → Answer (List ℕ) × Manager N → Reply × Manager N
  shown_text bad ((err, none), m) = (bad, m)
  shown_text bad ((err, some text), m) = (if is_ok err then reply http_ok text else bad, m)

  abbrev pub shown_flag : Answer Bool × Manager N → Reply × Manager N
  shown_flag ((err, none), m) = (says http_ok "1", m)
  shown_flag ((err, some enabled), m) =
      (if is_ok err then says http_ok (if enabled then "1" else "0") else says http_ok "1", m)

  abbrev pub shown_port : Answer ℕ × Manager N → Reply × Manager N
  shown_port ((err, none), m) = (says http_ok "", m)
  shown_port ((err, some port), m) = (
    if is_ok err
        then if port == 0 then says http_ok "" else reply http_ok (decimal port)
        else says http_ok "",
    m,
  )

  abbrev pub shown_value : Option ℕ → Manager N → Reply × Manager N
  shown_value none m = (says http_not_found "0", m)
  shown_value (some v) m = (reply http_ok (decimal v), m)

  -- In the build without `CONFIG_USE_DSP_PROCESSOR`.
  unfoldable pub show_param : List ℕ → Manager N → Reply × Manager N
  show_param param m =
      if same_text param (codes "hostname")
      then shown_text server_error (settings_get_hostname nvs defaults 64 m)
      else if same_text param (codes "snapserver_use_mdns")
      then shown_flag (settings_get_mdns_enabled nvs defaults m)
      else if same_text param (codes "snapserver_host")
      then shown_text (says http_ok "") (settings_get_server_host nvs defaults 128 m)
      else if same_text param (codes "snapserver_port")
      then shown_port (settings_get_server_port nvs defaults m)
      else shown_value (load_flow_param param) m

  unfoldable pub get_param_handler : List ℕ → Manager N → Reply × Manager N
  unfolding show_param
  get_param_handler uri m =
      on_value (says http_bad_request "error", m) (overran, m) (λ param. show_param param m)
        (find_key_value (codes "param=") uri 16)

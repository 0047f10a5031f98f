-- ===== src/Web/Handlers/Stored.antt =====
-- A host name that is set through the handlers of components/ui_http_server/ui_http_server.c, and shown by them.
use snapclient.Base.{
  ℕ, suc, ◌<◌, ◌≡◌, ◌≢◌, inl, inr, refl, ap, sym, ◌∙◌, arith, List, [], ◌∷◌, ◌++◌, length, take_all,
  Option, some, Bool, true, false, if◌then◌else◌, ltb, lt→ltb, ◌==◌, All, Bool-cases,
}
use mathlib.Core.Path.{subst}
use mathlib.Core.List.{append_assoc}
use snapclient.Base.Text.{codes}
use snapclient.Settings.{
  EspErr, esp_ok, timeout, Key, Nvs, Defaults, Manager, is_ok, settings_set_hostname, key_hostname,
}
use snapclient.Settings.Get.{Answer, settings_get_hostname}
use snapclient.Settings.Saves.{Content, IsNvs}
use snapclient.Settings.Stored.{name, Reads, apply-Shows}
use snapclient.Web.Url.{Strtol, ampersand, url_decode, c_string, Found, fits, find_key_value}
use snapclient.Web.Url.Decoded.{Encodes, Encodes-length, url_decode-Encodes}
use snapclient.Web.Url.Query.{FirstAt, Ends, at_next, find_key_value_lem}
use snapclient.Web.Handlers.{
  UrlParam, Reply, reply, overran, http_ok, http_bad_request, says, on_value, done_or, keep_queue,
  set_param, root_post_handler, shown_text, show_param, get_param_handler, server_error,
}

c_string_lem : (text : List ℕ) → All (λ c. c ≢ 0) text → c_string text ≡ text
c_string_lem [] h = refl
c_string_lem (c ∷ text) (h, hs) =
    let k : (c == 0) ≡ false = ground arith in rw k (ap (◌∷◌ c) (c_string_lem text hs))

is_esp_ok : (err : EspErr) → is_ok err ≡ true → err ≡ esp_ok
is_esp_ok esp_ok h = refl
is_esp_ok EspErr.invalid_arg h = cc
is_esp_ok EspErr.invalid_state h = cc
is_esp_ok EspErr.invalid_size h = cc
is_esp_ok EspErr.no_mem h = cc
is_esp_ok timeout h = cc
is_esp_ok EspErr.not_found h = cc
is_esp_ok (EspErr.failed n) h = cc

other_status : ¬ (says http_ok "ok" ≡ says http_bad_request "Invalid hostname")
other_status e = cc

-- A value that fits and is not empty is used.
pub used :
    {R : Type 0} (missing broken : R) (use_it : List ℕ → R) (size : ℕ) (value : List ℕ)
    → 0 < length value
    → length value < size
    → on_value missing broken use_it (fits size value) ≡ use_it value
used missing broken use_it size [] h k = absurd (omega (arith, h))
used missing broken use_it size (c ∷ value) h k =
    let e : ltb (suc (length value)) size ≡ true = lt→ltb (suc (length value)) size k in rw e refl

-- What follows the path in the URL of a request that sets the host name, and of one that asks for it.
abbrev pub set_query : List ℕ → List ℕ → List ℕ
set_query text rest = codes "param=hostname&value=" ++ (text ++ rest)

abbrev pub get_query : List ℕ → List ℕ
get_query rest = codes "param=hostname" ++ rest

-- The URL is read as it is meant: the first `param=` and the first `value=` are those of the query.
abbrev pub SetsHostname : List ℕ → List ℕ → List ℕ → Type 0
SetsHostname path text rest =
    FirstAt (codes "param=") path (set_query text rest)
    × FirstAt (codes "value=") (path ++ codes "param=hostname&") (codes "value=" ++ (text ++ rest))
    × All (λ c. c ≢ ampersand) text
    × Ends rest

no_ampersand : All (λ c. c ≢ ampersand) (codes "hostname")
no_ampersand = (
  (λ e. cc),
  ((λ e. cc), ((λ e. cc), ((λ e. cc), ((λ e. cc), ((λ e. cc), ((λ e. cc), ((λ e. cc), tt))))))),
)

module _ {N Q : Type 0} (isalnum : ℕ → Bool) (strtol : Strtol) (nvs : Nvs N)
    (send : UrlParam → Q → Bool × Q) where
  queue_state : (q : Q) (x : Reply × Manager N) → (keep_queue isalnum strtol nvs send q x).1 ≡ x.1
  queue_state q (r, m) = refl

  queue_reply : (q : Q) (x : Reply × Manager N) → (keep_queue isalnum strtol nvs send q x).0 ≡ x.0
  queue_reply q (r, m) = refl

  -- The handler sets the decoded name.
  post_lem :
      (path text rest host : List ℕ) (m : Manager N) (q : Q)
      → SetsHostname path text rest
      → 0 < length text
      → length text < 64
      → Encodes strtol text host
      → All (λ c. c ≢ 0) host
      → root_post_handler isalnum strtol nvs send (path ++ set_query text rest) m q
        ≡ keep_queue isalnum strtol nvs send q (
            done_or
              (says http_bad_request "Invalid hostname")
              (settings_set_hostname nvs isalnum (some host) m))
  unfolding root_post_handler set_param
  post_lem path text rest host m q (first, second, free, end) some_text short enc whole =
      let uri = path ++ set_query text rest in
      let by_param =
        find_key_value_lem (codes "param=") path (codes "hostname")
          (codes "&value=" ++ (text ++ rest)) 16 first no_ampersand
          (at_next (codes "value=" ++ (text ++ rest))) in
      let by_value : find_key_value (codes "value=") uri 64 ≡ fits 64 text =
        ap (λ (u : List ℕ). find_key_value (codes "value=") u 64)
          (sym (append_assoc path (codes "param=hostname&") (codes "value=" ++ (text ++ rest))))
        ∙ find_key_value_lem (codes "value=") (path ++ codes "param=hostname&") text rest 64 second
            free end in
      let decoded : c_string (url_decode strtol 64 text) ≡ host =
        ap (λ (s : List ℕ). c_string s)
          (url_decode-Encodes strtol 64 (omega arith) (omega arith) enc
            ∙ take_all host 63 (omega (arith, short, Encodes-length enc)))
        ∙ c_string_lem host whole in
      let ignored : Reply × Manager N × Q = (says http_ok "ok", m, q) in
      let broken : Reply × Manager N × Q = (overran, m, q) in
      let set_to : List ℕ → List ℕ → Reply × Manager N × Q =
        λ param value. set_param isalnum strtol nvs send param value m q in
      ap
        (λ (f : Found).
          on_value ignored broken
            (λ param.
              on_value ignored broken (set_to param) (find_key_value (codes "value=") uri 64))
            f)
        by_param
      ∙ ap (λ (f : Found). on_value ignored broken (set_to (codes "hostname")) f) by_value
      ∙ used ignored broken (set_to (codes "hostname")) 64 text some_text short
      ∙ ap
          (λ (s : List ℕ). keep_queue isalnum strtol nvs send q (
            done_or (says http_bad_request "Invalid hostname")
              (settings_set_hostname nvs isalnum (some s) m)))
          decoded

-- A reply of 200 tells that the setting was saved.
saved :
    {N : Type 0} (r : EspErr × Manager N)
    → (done_or (says http_bad_request "Invalid hostname") r).0 ≡ says http_ok "ok"
    → r.0 ≡ esp_ok
saved (err, m) e = elim (Bool-cases (is_ok err)) [
  | inl good ↦ is_esp_ok err good
  | inr bad ↦ absurd (other_status (sym (rw bad at e)))
]

kept :
    {N : Type 0} (r : EspErr × Manager N)
    → (done_or (says http_bad_request "Invalid hostname") r).1 ≡ r.1
kept (err, m) = refl

module _ {N : Type 0} (nvs : Nvs N) (content : Key → N → Option Content) (defaults : Defaults)
    (decimal : ℕ → List ℕ) (load_flow_param : List ℕ → Option ℕ) where
  -- The handler shows the host name.
  get_lem :
      (path rest : List ℕ) (m : Manager N)
      → FirstAt (codes "param=") path (get_query rest)
      → Ends rest
      → get_param_handler nvs defaults decimal load_flow_param (path ++ get_query rest) m
        ≡ shown_text nvs defaults decimal load_flow_param server_error
            (settings_get_hostname nvs defaults 64 m)
  unfolding get_param_handler show_param
  get_lem path rest m first end =
      let missing : Reply × Manager N = (says http_bad_request "error", m) in
      let broken : Reply × Manager N = (overran, m) in
      ap
        (λ (f : Found).
          on_value missing broken (λ param. show_param nvs defaults decimal load_flow_param param m)
            f)
        (find_key_value_lem (codes "param=") path (codes "hostname") rest 16 first no_ampersand end)

  shown_lem :
      (host : List ℕ) (got : Bool) (a : Answer (List ℕ)) (m : Manager N)
      → Reads host got a
      → (shown_text nvs defaults decimal load_flow_param server_error (a, m)).0
        ≡ (if got then reply http_ok host else server_error)
  shown_lem host true a m e =
      ap (λ a'. (shown_text nvs defaults decimal load_flow_param server_error (a', m)).0) e
  shown_lem host false a m e =
      ap (λ a'. (shown_text nvs defaults decimal load_flow_param server_error (a', m)).0) e

  -- A host name that a request sets, in any encoding of the URL that fits the handler's buffer, with the reply 200: a
  -- later request for it is answered by just this name if the mutex is got in time, and by the error 500 if it is
  -- not, and no other setting has changed. The URLs have no earlier `param=` or `value=`, and the name no zero.
  pub post-get_hostname :
      {Q : Type 0} (isalnum : ℕ → Bool) (strtol : Strtol) (send : UrlParam → Q → Bool × Q)
      (path text rest host path' rest' : List ℕ) (m : Manager N) (q : Q)
      → IsNvs nvs content
      → SetsHostname path text rest
      → 0 < length text
      → length text < 64
      → Encodes strtol text host
      → All (λ c. c ≢ 0) host
      → FirstAt (codes "param=") path' (get_query rest')
      → Ends rest'
      → let posted = root_post_handler isalnum strtol nvs send (path ++ set_query text rest) m q in
        posted.0 ≡ says http_ok "ok"
        → let got =
            get_param_handler nvs defaults decimal load_flow_param
              (path' ++ get_query rest')
              posted.1 in
          (got.0 ≡ (if (nvs.lock posted.1.store).0 then reply http_ok host else server_error))
          × ((other : Key)
              → other ≢ key_hostname
              → content other posted.1.store ≡ content other m.store)
  post-get_hostname {Q} isalnum strtol send path text rest host path' rest' m q law sets some_text
        short enc whole first end good =
      let r = settings_set_hostname nvs isalnum (some host) m in
      let bad = says http_bad_request "Invalid hostname" in
      let posted =
        post_lem isalnum strtol nvs send path text rest host m q sets some_text short enc whole in
      let state =
        ap (λ (x : Reply × Manager N × Q). x.1) posted
        ∙ queue_state isalnum strtol nvs send q (done_or bad r)
        ∙ kept r in
      let status = sym (
        ap (λ (x : Reply × Manager N × Q). x.0) posted
        ∙ queue_reply isalnum strtol nvs send q (done_or bad r)) in
      let (shows, others) =
        apply-Shows nvs content isalnum defaults 64 (name host) m law
          (omega (arith, short, Encodes-length enc)) (saved r (status ∙ good)) in
      let got = ap (λ (x : Reply × Manager N). x.0) (get_lem path' rest' r.1 first end) in
      subst
        (λ (m' : Manager N).
          ((get_param_handler nvs defaults decimal load_flow_param (path' ++ get_query rest') m').0
            ≡ (if (nvs.lock m'.store).0 then reply http_ok host else server_error))
          × ((other : Key) → other ≢ key_hostname → content other m'.store ≡ content other m.store))
        (sym state)
        (
          got
              ∙ shown_lem host (nvs.lock r.1.store).0 (settings_get_hostname nvs defaults 64 r.1).0
                  (settings_get_hostname nvs defaults 64 r.1).1 shows,
          others,
        )

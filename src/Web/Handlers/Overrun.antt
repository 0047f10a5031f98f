-- ===== src/Web/Handlers/Overrun.antt =====
-- Which names of a setting the handlers of components/ui_http_server/ui_http_server.c have a buffer for.
use snapclient.Base.{
  ℕ, ◌≤◌, ◌<◌, ◌≡◌, ◌≢◌, refl, ap, ◌∙◌, arith, List, ◌++◌, length, Option, Bool, ltb-false, All,
}
use snapclient.Base.Text.{codes}
use snapclient.Settings.{Nvs, Defaults, Manager}
use snapclient.Web.Url.{Strtol, ampersand, Found, overrun, fits, find_key_value}
use snapclient.Web.Url.Query.{FirstAt, Ends, find_key_value_lem}
use snapclient.Web.Handlers.{
  UrlParam, Reply, overran, says, http_ok, http_bad_request, on_value, set_param, root_post_handler,
  clear_param, root_delete_handler, show_param, get_param_handler,
}
use snapclient.Web.Handlers.Stored.{used}

-- What follows the path in the URL of a request for a parameter.
abbrev pub param_query : List ℕ → List ℕ → List ℕ
param_query param rest = codes "param=" ++ (param ++ rest)

too_long : (size : ℕ) (value : List ℕ) → size ≤ length value → fits size value ≡ overrun
too_long size value h = let e = ltb-false (length value) size h in rw e refl

module _ {N Q : Type 0} (isalnum : ℕ → Bool) (strtol : Strtol) (nvs : Nvs N)
    (send : UrlParam → Q → Bool × Q) (defaults : Defaults) (decimal : ℕ → List ℕ)
    (load_flow_param : List ℕ → Option ℕ) where
  -- A request for a parameter whose name has 16 to 31 characters, such as snapserver_use_mdns, which the handlers know:
  -- those that set and show a parameter write behind the end of their buffer, and the one that clears it serves the
  -- request.
  pub long_param-overran :
      (path param rest : List ℕ) (m : Manager N) (q : Q)
      → FirstAt (codes "param=") path (param_query param rest)
      → All (λ c. c ≢ ampersand) param
      → Ends rest
      → 16 ≤ length param
      → length param < 32
      → let uri = path ++ param_query param rest in
        ((root_post_handler isalnum strtol nvs send uri m q).0 ≡ overran)
        × ((get_param_handler nvs defaults decimal load_flow_param uri m).0 ≡ overran)
        × (root_delete_handler nvs uri m ≡ clear_param nvs param m)
  unfolding root_post_handler get_param_handler root_delete_handler
  long_param-overran path param rest m q first free end long short =
      let uri = path ++ param_query param rest in
      let in16 =
        find_key_value_lem (codes "param=") path param rest 16 first free end
        ∙ too_long 16 param long in
      let in32 = find_key_value_lem (codes "param=") path param rest 32 first free end in
      let ignored : Reply × Manager N × Q = (says http_ok "ok", m, q) in
      let broken : Reply × Manager N × Q = (overran, m, q) in
      let missing : Reply × Manager N = (says http_bad_request "Missing param", m) in
      let error : Reply × Manager N = (says http_bad_request "error", m) in
      let wrong : Reply × Manager N = (overran, m) in
      (
        ap
            (λ (f : Found).
              (on_value ignored broken
                (λ p.
                  on_value ignored broken (λ value. set_param isalnum strtol nvs send p value m q)
                    (find_key_value (codes "value=") uri 64))
                f).0)
            in16,
        ap
            (λ (f : Found).
              (on_value error wrong (λ p. show_param nvs defaults decimal load_flow_param p m) f).0)
            in16,
        ap (λ (f : Found). on_value missing wrong (λ p. clear_param nvs p m) f) in32
            ∙ used missing wrong (λ p. clear_param nvs p m) 32 param (omega (arith, long)) short,
      )

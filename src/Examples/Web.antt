-- ===== src/Examples/Web.antt =====
-- The web interface on concrete requests.
use snapclient.Base.{
  ℕ, ◌+◌, ◌*◌, ◌-◌, ◌≡◌, ◌≢◌, refl, arith, List, [], ◌∷◌, ◌++◌, take, none, true, leb,
  if◌then◌else◌,
}
use snapclient.Base.Int.{pos}
use snapclient.Base.Text.{codes}
use snapclient.Settings.{Key, key_hostname, validate_hostname, settings_set_hostname, save}
use snapclient.Web.Url.{
  Strtol, percent, url_decode, find_key_value, decode, behind, up_to_ampersand,
}
use snapclient.Web.Url.Decoded.{Encodes, itself, by_digits, done, url_decode-Encodes}
use snapclient.Web.Url.Query.{at_end, at_next}
use snapclient.Web.Handlers.{
  reply, overran, http_ok, root_post_handler, root_delete_handler, clear_param, get_param_handler,
  set_param,
}
use snapclient.Web.Handlers.Stored.{set_query, get_query, post-get_hostname}
use snapclient.Web.Handlers.Overrun.{param_query, long_param-overran}
use snapclient.Examples.Settings.{flash_nvs, flash_nvs-IsNvs, fresh, build, ascii_alnum, den}

-- Digits, without a sign or a space.
abbrev digit : ℕ → ℕ
digit c = if leb c 57 then c - 48 else c - 87

abbrev number : ℕ → ℕ → List ℕ → ℕ
number base acc [] = acc
number base acc (c ∷ text) = number base (acc * base + digit c) text

abbrev digits_only : Strtol
digits_only base text = pos (number base 0 text)

den_encoded : Encodes digits_only (codes "den%2d1") den
den_encoded =
    itself 100 (λ e. cc) (λ e. cc)
      (itself 101 (λ e. cc) (λ e. cc)
        (itself 110 (λ e. cc) (λ e. cc)
          (by_digits percent 50 100 45 refl (omega arith) refl
            (itself 49 (λ e. cc) (λ e. cc) done))))

url_decode-Encodes_example : url_decode digits_only 4 (codes "den%2d1") ≡ take 3 den
url_decode-Encodes_example =
    url_decode-Encodes digits_only 4 (omega arith) (omega arith) den_encoded

post-get_hostname_example :
    let posted =
      root_post_handler ascii_alnum digits_only flash_nvs
        (λ p (q : ℕ). (true, q))
        (codes "/post?" ++ set_query (codes "den%2d1") [])
        fresh
        0 in
    let got =
      get_param_handler flash_nvs build
        (λ n. [])
        (λ p. none)
        (codes "/get?" ++ get_query [])
        posted.1 in
    (got.0 ≡ reply http_ok den)
    × ((other : Key) → other ≢ key_hostname → posted.1.store other ≡ none)
unfolding root_post_handler set_param find_key_value behind up_to_ampersand url_decode decode
    settings_set_hostname validate_hostname save
post-get_hostname_example =
    post-get_hostname flash_nvs (λ key flash. flash key) build (λ n. []) (λ p. none) ascii_alnum
      digits_only (λ p (q : ℕ). (true, q)) (codes "/post?") (codes "den%2d1") [] den (codes "/get?")
      [] fresh 0 flash_nvs-IsNvs
      (
        (refl, (refl, (refl, (refl, (refl, (refl, tt)))))),
        (
          refl,
          (
            refl,
            (
              refl,
              (
                refl,
                (
                  refl,
                  (
                    refl,
                    (
                      refl,
                      (
                        refl,
                        (
                          refl,
                          (
                            refl,
                            (
                              refl,
                              (
                                refl,
                                (
                                  refl,
                                  (
                                    refl,
                                    (refl, (refl, (refl, (refl, (refl, (refl, (refl, tt))))))),
                                  ),
                                ),
                              ),
                            ),
                          ),
                        ),
                      ),
                    ),
                  ),
                ),
              ),
            ),
          ),
        ),
        (
          (λ e. cc),
          ((λ e. cc), ((λ e. cc), ((λ e. cc), ((λ e. cc), ((λ e. cc), ((λ e. cc), tt)))))),
        ),
        at_end,
      )
      (omega arith) (omega arith) den_encoded
      ((λ e. cc), ((λ e. cc), ((λ e. cc), ((λ e. cc), ((λ e. cc), tt)))))
      (refl, (refl, (refl, (refl, (refl, tt))))) at_end refl

-- A parameter that the page of the settings uses.
long_param-overran_example :
    let uri = codes "/post?" ++ param_query (codes "snapserver_use_mdns") (codes "&value=1") in
    ((root_post_handler ascii_alnum digits_only flash_nvs (λ p (q : ℕ). (true, q)) uri fresh 0).0
      ≡ overran)
    × ((get_param_handler flash_nvs build (λ n. []) (λ p. none) uri fresh).0 ≡ overran)
    × (root_delete_handler flash_nvs uri fresh
        ≡ clear_param flash_nvs (codes "snapserver_use_mdns") fresh)
long_param-overran_example =
    long_param-overran ascii_alnum digits_only flash_nvs (λ p (q : ℕ). (true, q)) build (λ n. [])
      (λ p. none) (codes "/post?") (codes "snapserver_use_mdns") (codes "&value=1") fresh 0
      (refl, (refl, (refl, (refl, (refl, (refl, tt))))))
      (
        (λ e. cc),
        (
          (λ e. cc),
          (
            (λ e. cc),
            (
              (λ e. cc),
              (
                (λ e. cc),
                (
                  (λ e. cc),
                  (
                    (λ e. cc),
                    (
                      (λ e. cc),
                      (
                        (λ e. cc),
                        (
                          (λ e. cc),
                          (
                            (λ e. cc),
                            (
                              (λ e. cc),
                              (
                                (λ e. cc),
                                (
                                  (λ e. cc),
                                  (
                                    (λ e. cc),
                                    ((λ e. cc), ((λ e. cc), ((λ e. cc), ((λ e. cc), tt)))),
                                  ),
                                ),
                              ),
                            ),
                          ),
                        ),
                      ),
                    ),
                  ),
                ),
              ),
            ),
          ),
        ),
      )
      (at_next (codes "value=1")) (omega arith) (omega arith)

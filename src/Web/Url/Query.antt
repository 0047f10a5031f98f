-- ===== src/Web/Url/Query.antt =====
-- The value of a key in a URL, which components/ui_http_server/ui_http_server.c looks for.
use snapclient.Base.{
  ℕ, ◌≡◌, ◌≢◌, refl, ap, arith, List, [], ◌∷◌, ◌++◌, none, some, true, false, ◌==◌, All,
}
use snapclient.Web.Url.{ampersand, behind_prefix, behind, up_to_ampersand, fits, find_key_value}

-- The key does not begin anywhere in `before`, with `text` behind it.
abbrev pub FirstAt : List ℕ → List ℕ → List ℕ → Type 0
FirstAt key [] text = Unit {0}
FirstAt key (c ∷ before) text =
    (behind_prefix key (c ∷ (before ++ text)) ≡ none) × FirstAt key before text

-- The end of a URL, or the next parameter.
pub data Ends : List ℕ → Type 0 where
  at_end : Ends []
  at_next : (rest : List ℕ) → Ends (ampersand ∷ rest)

behind_prefix_lem : (key text : List ℕ) → behind_prefix key (key ++ text) ≡ some text
behind_prefix_lem [] text = refl
behind_prefix_lem (k ∷ key) text =
    let e : (k == k) ≡ true = ground arith in rw e (behind_prefix_lem key text)

behind_here :
    (key text rest : List ℕ) → behind_prefix key text ≡ some rest → behind key text ≡ some rest
unfolding behind
behind_here key [] rest e = e
behind_here key (c ∷ text) rest e = rw (e, behind) refl

behind_lem :
    (key before text : List ℕ)
    → FirstAt key before (key ++ text)
    → behind key (before ++ (key ++ text)) ≡ some text
unfolding behind
behind_lem key [] text h = behind_here key (key ++ text) text (behind_prefix_lem key text)
behind_lem key (c ∷ before) text (h, hs) = rw (h, behind) (behind_lem key before text hs)

up_to_lem :
    (value rest : List ℕ)
    → All (λ c. c ≢ ampersand) value
    → Ends rest
    → up_to_ampersand (value ++ rest) ≡ value
unfolding up_to_ampersand
up_to_lem [] rest h at_end = refl
up_to_lem [] rest h (at_next more) = refl
up_to_lem (c ∷ value) rest (h, hs) e =
    let k : (c == ampersand) ≡ false = ground arith in rw k (ap (◌∷◌ c) (up_to_lem value rest hs e))

-- The value is what stands between the first place of the key and the next ampersand, or the end. It is copied
-- behind the end of a buffer that it does not fit in.
pub find_key_value_lem :
    (key before value rest : List ℕ) (size : ℕ)
    → FirstAt key before (key ++ (value ++ rest))
    → All (λ c. c ≢ ampersand) value
    → Ends rest
    → find_key_value key (before ++ (key ++ (value ++ rest))) size ≡ fits size value
unfolding find_key_value
find_key_value_lem key before value rest size h free e =
    rw (behind_lem key before (value ++ rest) h, up_to_lem value rest free e, find_key_value) refl

-- ===== src/Web/Url/Decoded.antt =====
-- `url_decode` of components/ui_http_server/ui_http_server.c against the encoding of URLs.
use snapclient.Base.{
  ℕ, zero, suc, ◌+◌, ◌-◌, ◌%◌, ◌^◌, ◌≤◌, ◌<◌, ◌≡◌, ◌≢◌, refl, ap, ◌∙◌, arith, List, [], ◌∷◌, length,
  take, true, false, ◌==◌, Bool-cases, inl, inr,
}
use snapclient.Base.Int.{pos}
use snapclient.Web.Url.{Strtol, percent, plus_sign, space, plain, decode, url_decode}

-- A text that stands for `bytes`: a byte as itself, unless it is a percent or a plus sign, a space as a plus sign, or
-- any byte as a percent sign and two digits of base 16.
pub data Encodes (strtol : Strtol) : List ℕ → List ℕ → Type 0 where
  done : Encodes strtol [] []
  itself :
      (c : ℕ) {text bytes : List ℕ}
      → c ≢ percent
      → c ≢ plus_sign
      → Encodes strtol text bytes
      → Encodes strtol (c ∷ text) (c ∷ bytes)
  by_plus :
      (c b : ℕ) {text bytes : List ℕ}
      → c ≡ plus_sign
      → b ≡ space
      → Encodes strtol text bytes
      → Encodes strtol (c ∷ text) (b ∷ bytes)
  by_digits :
      (c d e b : ℕ) {text bytes : List ℕ}
      → c ≡ percent
      → b < 256
      → strtol 16 (d ∷ e ∷ []) ≡ pos b
      → Encodes strtol text bytes
      → Encodes strtol (c ∷ d ∷ e ∷ text) (b ∷ bytes)

-- A character that is no percent sign is decoded by itself.
decode-plain :
    (strtol : Strtol) (n c : ℕ) (text : List ℕ)
    → c ≢ percent
    → decode strtol (suc n) (c ∷ text) ≡ plain c ∷ decode strtol n text
unfolding decode
decode-plain strtol n c [] h = refl
decode-plain strtol n c (d ∷ []) h = refl
decode-plain strtol n c (d ∷ e ∷ text) h =
    let k : (c == percent) ≡ false = ground arith in rw k refl

decode_digits :
    (strtol : Strtol) (n c d e b : ℕ) (text : List ℕ)
    → c ≡ percent
    → b < 256
    → strtol 16 (d ∷ e ∷ []) ≡ pos b
    → decode strtol (suc n) (c ∷ d ∷ e ∷ text) ≡ b ∷ decode strtol n text
unfolding decode
decode_digits strtol n c d e b text p small h =
    let t : (c == percent) ≡ true = ground arith in
    let k : b % 256 ≡ b = omega (arith, small) in rw (t, h, k) refl

decode-Encodes :
    (strtol : Strtol) (n : ℕ) {text bytes : List ℕ}
    → Encodes strtol text bytes
    → decode strtol n text ≡ take n bytes
unfolding decode
decode-Encodes strtol zero enc = refl
decode-Encodes strtol (suc n) done = refl
decode-Encodes strtol (suc n) (itself c {text} {bytes} np ns enc) =
    let k : (c == plus_sign) ≡ false = ground arith in
    decode-plain strtol n c text np ∙ rw k (ap (◌∷◌ c) (decode-Encodes strtol n enc))
decode-Encodes strtol (suc n) (by_plus c b {text} {bytes} e f enc) =
    let k : (c == plus_sign) ≡ true = ground arith in
    let np : c ≢ percent = ground arith in
    decode-plain strtol n c text np ∙ rw (k, f) (ap (◌∷◌ space) (decode-Encodes strtol n enc))
decode-Encodes strtol (suc n) (by_digits c d e b {text} {bytes} p small h enc) =
    decode_digits strtol n c d e b text p small h ∙ ap (◌∷◌ b) (decode-Encodes strtol n enc)

-- A text that encodes some bytes is decoded to them, up to the size of the buffer less one place for the zero: by
-- themselves, by a plus sign or by two digits, as the sender chose for each.
pub url_decode-Encodes :
    (strtol : Strtol) (dst_size : ℕ) {text bytes : List ℕ}
    → 0 < dst_size
    → dst_size < 2 ^ 32
    → Encodes strtol text bytes
    → url_decode strtol dst_size text ≡ take (dst_size - 1) bytes
unfolding url_decode
url_decode-Encodes strtol dst_size {text} {bytes} some fits enc =
    let k : (dst_size + 2 ^ 32 - 1) % 2 ^ 32 ≡ dst_size - 1 = omega (arith, some, fits) in
    rw k (decode-Encodes strtol (dst_size - 1) enc)

decode-length : (strtol : Strtol) (n : ℕ) (src : List ℕ) → length (decode strtol n src) ≤ n
unfolding decode
decode-length strtol zero src = omega arith
decode-length strtol (suc n) [] = omega arith
decode-length strtol (suc n) (c ∷ []) = omega (arith, decode-length strtol n [])
decode-length strtol (suc n) (c ∷ d ∷ []) = omega (arith, decode-length strtol n (d ∷ []))
decode-length strtol (suc n) (c ∷ d ∷ e ∷ src) = elim (Bool-cases (c == percent)) [
  | inl y ↦ rw y (omega (arith, decode-length strtol n src))
  | inr n' ↦ rw n' (omega (arith, decode-length strtol n (d ∷ e ∷ src)))
]

-- Whatever the text is, with the zero at the end no more is written than the buffer holds.
pub url_decode-fits :
    (strtol : Strtol) (dst_size : ℕ) (src : List ℕ)
    → 0 < dst_size
    → dst_size < 2 ^ 32
    → length (url_decode strtol dst_size src) + 1 ≤ dst_size
unfolding url_decode
url_decode-fits strtol dst_size src some fits =
    omega (arith, some, fits, decode-length strtol ((dst_size + 2 ^ 32 - 1) % 2 ^ 32) src)

pub Encodes-length :
    {strtol : Strtol} {text bytes : List ℕ} → Encodes strtol text bytes → length bytes ≤ length text
Encodes-length done = omega arith
Encodes-length (itself c np ns enc) = omega (arith, Encodes-length enc)
Encodes-length (by_plus c b e f enc) = omega (arith, Encodes-length enc)
Encodes-length (by_digits c d e b p small h enc) = omega (arith, Encodes-length enc)

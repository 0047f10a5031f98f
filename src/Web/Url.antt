-- ===== src/Web/Url.antt =====
-- The texts in a URL in components/ui_http_server/ui_http_server.c. A text is the list of its characters, without the
-- zero at its end, and a character is a byte. `strtol` of the C library is a parameter.
pub mod Decoded
pub mod Query
use snapclient.Base.{
  ℕ, zero, suc, ◌+◌, ◌-◌, ◌%◌, ◌^◌, List, [], ◌∷◌, length, Option, none, some, Bool, true, false,
  ltb, ◌==◌, if◌then◌else◌,
}
use snapclient.Base.Int.{ℤ, pos, negsuc}

-- `strtol`, by the base and the text; a long has 32 bits on the target.
abbrev pub Strtol : Type 0
Strtol = ℕ → List ℕ → ℤ

-- The conversions to `char`, and to an int32_t by its bit pattern.
abbrev pub to_char : ℤ → ℕ
to_char (pos n) = n % 256
to_char (negsuc n) = 255 - n % 256

abbrev pub to_int32 : ℤ → ℕ
to_int32 (pos n) = n % 2 ^ 32
to_int32 (negsuc n) = 2 ^ 32 - 1 - n % 2 ^ 32

abbrev pub percent : ℕ
percent = 37

abbrev pub plus_sign : ℕ
plus_sign = 43

abbrev pub space : ℕ
space = 32

abbrev pub ampersand : ℕ
ampersand = 38

abbrev pub plain : ℕ → ℕ
plain c = if c == plus_sign then space else c

-- The loop, with the places that are left.
unfoldable pub decode : Strtol → ℕ → List ℕ → List ℕ
decode strtol zero src = []
decode strtol (suc n) [] = []
decode strtol (suc n) (c ∷ []) = plain c ∷ decode strtol n []
decode strtol (suc n) (c ∷ d ∷ []) = plain c ∷ decode strtol n (d ∷ [])
decode strtol (suc n) (c ∷ d ∷ e ∷ src) =
    let escaped = to_char (strtol 16 (d ∷ e ∷ [])) ∷ decode strtol n src in
    let other = plain c ∷ decode strtol n (d ∷ e ∷ src) in if c == percent then escaped else other

-- The characters that are written to `dst`, in front of the zero. `dst_size - 1` wraps.
unfoldable pub url_decode : Strtol → ℕ → List ℕ → List ℕ
unfolding decode
url_decode strtol dst_size src = decode strtol ((dst_size + 2 ^ 32 - 1) % 2 ^ 32) src

-- What a reader of a C string sees of it.
abbrev pub c_string : List ℕ → List ℕ
c_string [] = []
c_string (c ∷ cs) = if c == 0 then [] else c ∷ c_string cs

-- What follows a prefix, and what follows the first place of a text in another one (`strstr` and `strlen`).
abbrev pub behind_prefix : List ℕ → List ℕ → Option (List ℕ)
behind_prefix [] text = some text
behind_prefix (k ∷ key) [] = none
behind_prefix (k ∷ key) (c ∷ text) = if k == c then behind_prefix key text else none

unfoldable pub behind : List ℕ → List ℕ → Option (List ℕ)
behind key [] = behind_prefix key []
behind key (c ∷ text) =
    let later = behind key text in
    elim (behind_prefix key (c ∷ text)) [ none ↦ later | some rest ↦ some rest ]

unfoldable pub up_to_ampersand : List ℕ → List ℕ
up_to_ampersand [] = []
up_to_ampersand (c ∷ text) = if c == ampersand then [] else c ∷ up_to_ampersand text

-- The key is not there, its value is longer than the buffer, which is written behind its end, or the value.
pub data Found : Type 0 where
  absent overrun : Found
  found : List ℕ → Found

-- `size` is the size of `value`, which the function does not get.
abbrev pub fits : ℕ → List ℕ → Found
fits size value = if ltb (length value) size then found value else overrun

unfoldable pub find_key_value : List ℕ → List ℕ → ℕ → Found
unfolding behind up_to_ampersand
find_key_value key parameter size = elim (behind key parameter) [
  | none ↦ absent
  | some rest ↦ fits size (up_to_ampersand rest)
]

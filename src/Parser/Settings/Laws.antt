-- ===== src/Parser/Settings/Laws.antt =====
-- The server's settings from a source of bytes, and where `parse_sever_settings_message` of
-- components/lightsnapcast/snapcast_protocol_parser.c writes out of bounds.
use snapclient.Base.{
  ℕ, ◌+◌, ◌-◌, ◌%◌, ◌^◌, ◌≤◌, ◌<◌, ◌==◌, ◌≡◌, refl, ap, ◌∙◌, List, [], ◌∷◌, ◌++◌, arith, Option,
  some, length, set, set-append, length-append, length-drop, drop, All, lt→ltb, false,
}
use snapclient.Base.Bytes.{le_bytes}
use snapclient.Message.{BaseMessage}
use snapclient.Message.Settings.{
  ServerSettings, Json, server_settings_message_deserialize, read_members,
}
use snapclient.Parser.{parsed, fault}
use snapclient.Parser.Source.{Feeds}
use snapclient.Parser.Data.{Feeds-append, read_data-fills, read_data-overflows}
use snapclient.Parser.Codec.{c_string}
use snapclient.Parser.Codec.Laws.{read_uint32-Feeds}
use snapclient.Parser.Settings.{read_text, parse_sever_settings_message}

-- A byte inside a C string.
abbrev pub IsText : ℕ → Type 0
IsText b = 0 < b

c_string_ends : (text rest : List ℕ) → All IsText text → c_string (text ++ 0 ∷ rest) ≡ text
unfolding c_string
c_string_ends [] rest a = refl
c_string_ends (b ∷ text) rest (p, a) =
    let e : (b == 0) ≡ false = ground arith in rw (e) (ap (◌∷◌ b) (c_string_ends text rest a))

terminated :
    (text tail : List ℕ) → length tail ≡ 1 → set (text ++ tail) (length text) 0 ≡ text ++ 0 ∷ []
terminated text [] l = absurd (omega arith)
terminated text (x ∷ []) l =
    let z : length text ≡ length text + 0 = omega arith in
    ap (λ (i : ℕ). set (text ++ x ∷ []) i 0) z ∙ set-append text (x ∷ []) 0 0
terminated text (x ∷ y ∷ tail) l = absurd (omega arith)

module _ {W J : Type 0} (get_byte : W → Option ℕ × W) (malloc : ℕ → Option (List ℕ))
    (json : Json J) where
  read_text_lem :
      (old : ServerSettings) (text tail : List ℕ) (j : J) (w : W)
      → length tail ≡ 1
      → All IsText text
      → json.parse text ≡ some j
      → read_text get_byte malloc json old (length text) (text ++ tail) w
        ≡ parsed (read_members json old (some j)) w
  unfolding read_text server_settings_message_deserialize
  read_text_lem old text tail j w l a e = rw (
    lt→ltb (length text) (length (text ++ tail)) (omega (arith, length-append text tail)),
    terminated text tail l,
    c_string_ends text [] a,
    server_settings_message_deserialize,
    e,
  )

  -- The text of the server's settings is handed to cJSON as it came, and its members replace what was
  -- known, where the message's size is that of the text and its length.
  pub parse_sever_settings_message_lem :
      (old : ServerSettings) (base : BaseMessage) (text block : List ℕ) (j : J) (w w' : W)
      → base.size ≡ length text + 4
      → base.size < 2 ^ 32
      → malloc (length text + 1) ≡ some block
      → length block ≡ length text + 1
      → All IsText text
      → json.parse text ≡ some j
      → Feeds get_byte w (le_bytes 4 (length text) ++ text) w'
      → parse_sever_settings_message get_byte malloc json old base w
        ≡ parsed (read_members json old (some j)) w'
  unfolding parse_sever_settings_message
  parse_sever_settings_message_lem old base text block j w w' size lt m l a e f =
      let (v, f0, f1) = Feeds-append get_byte (le_bytes 4 (length text)) w w' text f in
      let n : (base.size + 2 ^ 32 - 4) % 2 ^ 32 ≡ length text = omega arith in
      let k : (length text + 1) % 2 ^ 32 ≡ length text + 1 = omega arith in
      rw
        (
          read_uint32-Feeds get_byte malloc (length text) w v (omega arith) f0,
          k,
          m,
          n,
          read_data-fills get_byte (length text) block text v w' f1 refl (omega arith),
        )
        (read_text_lem old text (drop (length text) block) j w'
          (omega (arith, length-drop (length text) block)) a e)

  -- A message that is longer than the length it states by two bytes or more is written behind the
  -- memory that was allocated for it.
  pub parse_sever_settings_message-overflows :
      (old : ServerSettings) (base : BaseMessage) (n : ℕ) (bytes block : List ℕ) (w w' : W)
      → n + 1 < 2 ^ 32
      → n + 6 ≤ base.size
      → base.size < 2 ^ 32
      → malloc (n + 1) ≡ some block
      → length block ≡ n + 1
      → length bytes ≡ n + 2
      → Feeds get_byte w (le_bytes 4 n ++ bytes) w'
      → parse_sever_settings_message get_byte malloc json old base w ≡ fault w'
  unfolding parse_sever_settings_message
  parse_sever_settings_message-overflows old base n bytes block w w' small size lt m l lb f =
      let (v, f0, f1) = Feeds-append get_byte (le_bytes 4 n) w w' bytes f in
      let k : (n + 1) % 2 ^ 32 ≡ n + 1 = omega arith in
      let d : (base.size + 2 ^ 32 - 4) % 2 ^ 32 ≡ base.size - 4 = omega arith in
      rw (
        read_uint32-Feeds get_byte malloc n w v (omega arith) f0,
        k,
        m,
        d,
        read_data-overflows get_byte (base.size - 4) block bytes v w' f1 (omega arith)
            (omega arith),
      )

-- ===== src/Message/Hello/Laws.antt =====
-- The greeting of components/lightsnapcast/snapcast.c on the wire, and where memory runs out under it.
use snapclient.Base.{
  ℕ, ◌+◌, ◌/◌, ◌%◌, ◌^◌, ◌<◌, ◌≡◌, ap, ◌∙◌, List, ◌∷◌, ◌++◌, Option, none, some, true, length,
  arith,
}
use mathlib.Core.Path.{subst}
use snapclient.Base.Bytes.{le_bytes}
use snapclient.Message.Hello.{
  HelloMessage, Value, Writer, whole, use_after_free, serialized, add_members, add_item_or, created,
  copied, printed, built, key_mac, tail_members, hello_message_to_json, prefixed,
  hello_message_serialize,
}
use snapclient.Parser.{parsed, read_uint32_le}
use snapclient.Parser.Source.{Feeds}
use snapclient.Parser.Data.{Feeds-append}
use snapclient.Parser.Codec.Laws.{read_uint32-Feeds}

bytes_of :
    (n : ℕ) (str : List ℕ)
    → ◌≡◌ {A = List ℕ}
        (n % 2 ^ 8 ∷ n / 2 ^ 8 % 2 ^ 8 ∷ n / 2 ^ 16 % 2 ^ 8 ∷ n / 2 ^ 24 % 2 ^ 8 ∷ str)
        (le_bytes 4 n ++ str)
bytes_of n str =
    let e2 : n / 2 ^ 16 ≡ n / 256 / 256 = omega arith in
    let e3 : n / 2 ^ 24 ≡ n / 256 / 256 / 256 = omega arith in rw (e2, e3)

prefixed-le_bytes : (str : List ℕ) → prefixed str ≡ le_bytes 4 (length str) ++ str
prefixed-le_bytes str = bytes_of (length str) str

module _ {J H : Type 0} (writer : Writer J H) where
  -- Where there is memory for all, the greeting is its text with the text's length in front, which is what
  -- a parser of the protocol reads back from a source of these bytes; and its size is counted.
  pub hello_message_serialize_lem :
      {W : Type 0} (get_byte : W → Option ℕ × W) (msg : HelloMessage) (json : J) (str : List ℕ)
      (h h1 h2 h3 : H) (w w' : W)
      → length str + 4 < 2 ^ 31
      → hello_message_to_json writer msg h ≡ (whole json, h1)
      → writer.print json h1 ≡ (some str, h2)
      → writer.malloc (length str + 4) (writer.delete json h2) ≡ (true, h3)
      → Feeds get_byte w (prefixed str) w'
      → (hello_message_serialize writer msg h
          ≡ (serialized (le_bytes 4 (length str) ++ str) (length str + 4), writer.free str h3))
        × ((v : W) × (read_uint32_le get_byte w ≡ parsed (length str) v) × Feeds get_byte v str w')
  unfolding hello_message_serialize
  hello_message_serialize_lem get_byte msg json str h h1 h2 h3 w w' lt b p m f =
      let (v, f0, f1) =
        Feeds-append get_byte (le_bytes 4 (length str)) w w' str
          (subst (λ (bs : List ℕ). Feeds get_byte w bs w') (prefixed-le_bytes str) f) in
      (
        ap (built writer) b
            ∙ ap (printed writer json) p
            ∙ ap (copied writer str) m
            ∙ ap (λ (bs : List ℕ). (serialized bs (length str + 4), writer.free str h3))
                (prefixed-le_bytes str),
        (v, read_uint32-Feeds get_byte (λ _. none) (length str) w v (omega arith) f0, f1),
      )

  -- Where the heap has an object but not its first member, the object is deleted, and the greeting is made
  -- from it all the same.
  pub hello_message_serialize-uses_deleted :
      (msg : HelloMessage) (json : J) (h h1 h2 : H)
      → writer.create_object h ≡ (some json, h1)
      → writer.create (Value.text msg.mac) h1 ≡ (none, h2)
      → hello_message_serialize writer msg h ≡ (use_after_free, writer.delete json h2)
  unfolding hello_message_serialize hello_message_to_json add_members
  hello_message_serialize-uses_deleted msg json h h1 h2 o c =
      ap (λ (x : Option J × H). built writer (created writer msg x)) o
      ∙ ap
          (λ (x : Option J × H). built writer (
            add_item_or writer json
              (λ j heap'.
                add_members writer (tail_members msg) (writer.add_item json key_mac j) heap')
              x))
          c

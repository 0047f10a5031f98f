-- ===== src/Parser.antt =====
-- components/lightsnapcast/snapcast_protocol_parser.c: the parser of the server's messages, over a
-- source that yields one byte at a time. `W` is the world: the context of the byte callback, and the
-- heap. A read that returns false makes every caller return PARSER_RESTART_CONNECTION at once, which
-- is the outcome `restart` here; it keeps what has been assigned through pointers so far.
pub mod Source
pub mod Messages
pub mod Data
pub mod Codec
pub mod Chunk
pub mod Settings
use snapclient.Base.{
  ℕ, zero, suc, ◌+◌, ◌-◌, ◌*◌, ◌/◌, ◌%◌, ◌^◌, List, [], ◌∷◌, Option, none, some, Bool, true, false,
  ltb, ◌==◌, ◌&&◌, if◌then◌else◌, length, set, get_or, replicate, bit_or,
}
use snapclient.Base.Bytes.{join_two, join_four}
use snapclient.Message.{Tv, BaseMessage, TimeMessage}

-- `halted` is a call of `esp_restart`; `fault` is a write outside the memory that was allocated;
-- `waiting` is a loop that still waits for memory.
pub data Outcome {ℓ κ} (S : Type ℓ) (A : Type κ) : Type (ℓ ⊔ κ) where
  parsed : A → S → Outcome S A
  restart : S → Outcome S A
  halted : S → Outcome S A
  fault : S → Outcome S A
  waiting : S → Outcome S A

abbrev pub Parse {ℓ κ} : Type ℓ → Type κ → Type (ℓ ⊔ κ)
Parse S A = S → Outcome S A

abbrev pub then_outcome {ℓ κ μ} :
    {S : Type ℓ} {A : Type κ} {B : Type μ} → Outcome S A → (A → Parse S B) → Outcome S B
then_outcome (parsed a s) f = f a s
then_outcome (restart s) f = restart s
then_outcome (halted s) f = halted s
then_outcome (fault s) f = fault s
then_outcome (waiting s) f = waiting s

infixl 5 ◌>>=◌ ◌>>◌
abbrev pub ◌>>=◌ {ℓ κ μ} :
    {S : Type ℓ} {A : Type κ} {B : Type μ} → Parse S A → (A → Parse S B) → Parse S B
◌>>=◌ p f s = then_outcome (p s) f

abbrev pub ◌>>◌ {ℓ κ μ} : {S : Type ℓ} {A : Type κ} {B : Type μ} → Parse S A → Parse S B → Parse S B
◌>>◌ p q s = then_outcome (p s) (λ _. q)

abbrev pub pure {ℓ κ} : {S : Type ℓ} {A : Type κ} → A → Parse S A
pure a s = parsed a s

-- A parse over the world, beside variables `X` that it does not touch.
abbrev pub with_state {ℓ κ μ} :
    {X : Type ℓ} {W : Type κ} {A : Type μ} → X → Outcome W A → Outcome (X × W) A
with_state x (parsed a w) = parsed a (x, w)
with_state x (restart w) = restart (x, w)
with_state x (halted w) = halted (x, w)
with_state x (fault w) = fault (x, w)
with_state x (waiting w) = waiting (x, w)

abbrev pub lift {ℓ κ μ} : {X : Type ℓ} {W : Type κ} {A : Type μ} → Parse W A → Parse (X × W) A
lift p (x, w) = with_state x (p w)

-- Assign to the variables.
abbrev pub assign {ℓ κ} : {X : Type ℓ} {W : Type κ} → (X → X) → Parse (X × W) (Unit {0})
assign f (x, w) = parsed tt (f x, w)

module _ {W : Type 0} (get_byte : W → Option ℕ × W) where
  -- `get_byte_function(get_byte_context, &byte) != 0` is `none`.
  unfoldable pub read_byte : Parse W ℕ
  read_byte w = let (b, w') = get_byte w in elim b [ some v ↦ parsed v w' | none ↦ restart w' ]

  unfoldable pub read_uint16_le : Parse W ℕ
  read_uint16_le = do b0 ← read_byte; b1 ← read_byte; pure (join_two b0 b1)

  unfoldable pub read_uint32_le : Parse W ℕ
  read_uint32_le = do
    b0 ← read_byte
    b1 ← read_byte
    b2 ← read_byte
    b3 ← read_byte
    pure (join_four b0 b1 b2 b3)

  unfoldable pub read_timestamp : Parse W Tv
  read_timestamp = do
    sec ← read_uint32_le
    usec ← read_uint32_le
    pure (record { sec = sec; usec = usec })

  -- `for (i = 0; i < len; i++)` with `rounds` left; the callback writes to `dest[i]`.
  unfoldable pub read_data_loop : ℕ → ℕ → List ℕ → Parse W (List ℕ)
  read_data_loop zero i dest = pure dest
  read_data_loop (suc rounds) i dest = do
    b ← read_byte
    if ltb i (length dest) then read_data_loop rounds (i + 1) (set dest i b) else fault

  unfoldable pub read_data : List ℕ → ℕ → Parse W (List ℕ)
  unfolding read_data_loop
  read_data dest len = read_data_loop len 0 dest

  unfoldable pub parse_base_message : Parse W BaseMessage
  parse_base_message = do
    type ← read_uint16_le
    id ← read_uint16_le
    refers_to ← read_uint16_le
    sent ← read_timestamp
    received ← read_timestamp
    size ← read_uint32_le
    pure (record {
      type = type;
      id = id;
      refers_to = refers_to;
      sent = sent;
      received = received;
      size = size;
    })

  -- The size is looked at only behind the read.
  unfoldable pub parse_time_message : BaseMessage → Parse W TimeMessage
  parse_time_message base = do
    latency ← read_timestamp
    if ltb base.size 8 then restart else pure (record { latency = latency })

  unfoldable pub skip_loop : ℕ → Parse W (Unit {0})
  skip_loop zero = pure tt
  skip_loop (suc rounds) = do _ ← read_byte; skip_loop rounds

  unfoldable pub parser_skip_typed_message : BaseMessage → Parse W (Unit {0})
  unfolding skip_loop
  parser_skip_typed_message base = skip_loop base.size

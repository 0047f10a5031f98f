-- ===== src/Player/Playback.antt =====
-- The loop of `player_task` in components/lightsnapcast/player.c that writes a chunk to the I2S channel, with
-- sample insertion, which is the default: where the sound is late the last frame of the chunk is left out, and where
-- it is early it is written twice.
pub mod Heard
use snapclient.Base.{
  ℕ, zero, suc, ◌+◌, ◌-◌, ◌*◌, ◌/◌, ◌%◌, ◌^◌, List, [], ◌∷◌, ◌++◌, length, take, drop, Option, none,
  some, Bool, true, false, ltb, leb, ◌==◌, ◌&&◌, ◌||◌, if◌then◌else◌, min, ◌≡◌,
}
use snapclient.Base.Int.{ℤ, pos, negsuc, ◌+ℤ◌, ltb_ℤ}
use snapclient.Player.Memory.{PcmChunk, Fragment}
use snapclient.Player.Settings.{SnapcastSetting}

-- `i2s_channel_write` without a time limit, with whether it succeeds and the number of bytes written, and
-- `i2s_channel_preload_data`.
pub record I2s (I : Type 0) : Type 0 where
  pub write : List ℕ → I → Bool × ℕ × I
  pub preload : List ℕ → I → ℕ × I

-- Its documented behaviour: to an enabled channel every byte is written; before that the DMA buffers take as many
-- bytes as there is room for.
pub record IsI2s {I : Type 0} (i2s : I2s I) (sent : I → List ℕ) (room : I → ℕ) (runs : I → Bool)
    : Type 0 where
  pub written :
      (bytes : List ℕ) (i : I)
      → runs i ≡ true
      → (i' : I) × (i2s.write bytes i ≡ (true, length bytes, i'))
        × (sent i' ≡ sent i ++ bytes)
        × (runs i' ≡ true)
  pub preloaded :
      (bytes : List ℕ) (i : I)
      → (i' : I) × (i2s.preload bytes i ≡ (min (length bytes) (room i), i'))
        × (sent i' ≡ sent i ++ take (min (length bytes) (room i)) bytes)
        × (room i' ≡ room i - length bytes)

-- The channel, `samples_written`, `chunkStart` and `dir_insert_sample`.
pub record Line (I : Type 0) : Type 0 where
  pub channel : I
  pub samples_written : ℕ
  pub chunk_start : ℤ
  pub dir_insert_sample : ℤ

-- The chunk is written; it is not, since memory outside of the payload is read or a number is divided by 0; or the
-- loop still runs.
pub data Played (I : Type 0) : Type 0 where
  played : Line I → Played I
  faulted : Played I
  writing : Played I

-- `framesToBytes`, and with it `sampleSizeInBytes`, for one inserted sample.
unfoldable pub frames_to_bytes : SnapcastSetting → ℕ
frames_to_bytes setting = setting.ch + setting.bits / 8

module _ {I : Type 0} where
  -- Behind a write of `n` bytes.
  unfoldable pub advance : SnapcastSetting → ℕ → Line I → Line I
  advance setting n l =
      let frames = n / frames_to_bytes setting in
      record l {
        samples_written = l.samples_written + frames;
        chunk_start = l.chunk_start +ℤ pos (1000000 * frames / setting.sr);
      }

  -- Where the sound is late: the size that is left, and the line.
  unfoldable pub leave_out : SnapcastSetting → ℕ → Line I → ℕ × Line I
  leave_out setting size l =
      if ltb_ℤ (pos 0) l.dir_insert_sample && leb (frames_to_bytes setting) size
      then (size - frames_to_bytes setting, record l { dir_insert_sample = pos 0 })
      else (size, l)

  abbrev pub written_to : SnapcastSetting → Line I → Bool × ℕ × I → ℕ × Line I
  written_to setting l (good, n, i) = (n, advance setting n (record l { channel = i }))

  abbrev pub repeated_to : SnapcastSetting → Line I → Bool × ℕ × I → Line I
  repeated_to setting l (false, n, i) = record l { channel = i }
  repeated_to setting l (true, n, i) =
      advance setting n (record l { channel = i; dir_insert_sample = pos 0 })

module _ {I : Type 0} (i2s : I2s I) where
  -- Where the sound is early: the frame in front of `at`; `none` is a read in front of the payload.
  unfoldable pub write_again : SnapcastSetting → List ℕ → ℕ → Line I → Option (Line I)
  write_again setting payload at l =
      let n = frames_to_bytes setting in
      if ltb_ℤ l.dir_insert_sample (pos 0)
      then if ltb at n
        then none
        else some (repeated_to setting l (i2s.write (take n (drop (at - n) payload)) l.channel))
      else some l

  abbrev pub next_fragment :
      (List ℕ → ℕ → ℕ → List Fragment → Line I → Played I) → List Fragment → Line I → Played I
  next_fragment go [] l = played l
  next_fragment go (f ∷ fs) l = elim f.payload [
    | none ↦ faulted
    | some bytes ↦ go bytes 0 f.size fs l
  ]

  abbrev pub next_part :
      (List ℕ → ℕ → ℕ → List Fragment → Line I → Played I)
      → List ℕ
      → ℕ
      → ℕ
      → List Fragment
      → Option (Line I)
      → Played I
  next_part go payload at size later none = faulted
  next_part go payload at size later (some l) =
      let more = go payload at size later l in
      let behind = next_fragment go later l in if size == 0 then behind else more

  abbrev pub write_part :
      (List ℕ → ℕ → ℕ → List Fragment → Line I → Played I)
      → SnapcastSetting
      → List ℕ
      → ℕ
      → List Fragment
      → ℕ × Line I
      → Played I
  write_part go setting payload at later (size, l) =
      let (n, l') = written_to setting l (i2s.write (take size (drop at payload)) l.channel) in
      next_part go payload (at + n) (size - n) later (write_again setting payload (at + n) l')

  -- `at` is the place of `p_payload` in the payload of the fragment, and `later` are the fragments behind it.
  unfoldable pub write_chunk :
      ℕ → SnapcastSetting → List ℕ → ℕ → ℕ → List Fragment → Line I → Played I
  write_chunk zero setting payload at size later l = writing
  write_chunk (suc fuel) setting payload at size later l =
      write_part (λ p a z r l'. write_chunk fuel setting p a z r l') setting payload at later
        (leave_out setting size l)

-- The fragment that `p_payload` points into, its place there, `size` and the fragments behind.
pub record Place : Type 0 where
  pub payload : Option (List ℕ)
  pub at : ℕ
  pub size : ℕ
  pub later : List Fragment

-- The start of a chunk, which has a fragment.
abbrev pub start_of : List Fragment → Place
start_of [] = record { payload = none; at = 0; size = 0; later = [] }
start_of (f ∷ fs) = record { payload = f.payload; at = 0; size = f.size; later = fs }

-- ===== src/Player/Sound.antt =====
-- The start of the sound in `player_task` of components/lightsnapcast/player.c, from the timer for the first chunk to
-- the enabled channel, and the round of the task that gives a chunk to the driver and then keeps the time.
pub mod InOrder
use snapclient.Base.{ℕ, suc, ◌∷◌, ◌==◌, Option, none, some, Bool, true, false, if◌then◌else◌}
use snapclient.Base.Int.{ℤ, pos, negsuc, ◌-ℤ◌}
use snapclient.Rtos.{Queue}
use snapclient.Player.Memory.{PcmChunk}
use snapclient.Player.Settings.{SnapcastSetting}
use snapclient.Player.Chunks.{PlayerState, free_pcm_chunk}
use snapclient.Player.Clock.{MedianFilter}
use snapclient.Player.Takeover.{Task}
use snapclient.Player.Timer.{Timer, my_gptimer_stop, tg0_timer1_start}
use snapclient.Player.Sync.{chunk_start}
use snapclient.Player.Apll.{adjust_apll}
use snapclient.Player.Playback.{I2s, Line, Played, played, faulted, writing, Place, start_of}
use snapclient.Player.Preload.{Loaded, full, aborted, loading, preload}
use snapclient.Player.Silence.{play_chunk}
use snapclient.Player.Steer.{Tuning, insertion, apll, Playing, start_line, buffer_time, steer}

-- The sound has begun, with the place in the chunk that the task has; or not.
pub data Started (Q M I F : Type 0) : Type 0 where
  started : Place → PcmChunk → Playing Q M I F → Started Q M I F
  refused : Started Q M I F
  filling : Started Q M I F

-- A round that ends, and one that does not.
pub data Rounded (Q M I F : Type 0) : Type 0 where
  rounded : Playing Q M I F → Rounded Q M I F
  broken : Rounded Q M I F
  blocked : Rounded Q M I F

-- Whether there is a payload to write.
abbrev pub has_payload : Place → PcmChunk → Bool
has_payload place c =
    let at_hand = if place.size == 0 then start_of c.fragments else place in
    elim at_hand.payload [ none ↦ false | some b ↦ true ]

module _ {Q M I F : Type 0} where
  abbrev pub normal_speed : Tuning → Playing Q M I F → Playing Q M I F
  normal_speed insertion s = s
  normal_speed (apll p) s = record s { speed = adjust_apll p (pos 0) s.speed }

  -- The timer is set, the filters are empty and the channel is disabled.
  abbrev pub armed : MedianFilter F → Tuning → ℕ → Playing Q M I F → Playing Q M I F
  armed median tuning wait s = normal_speed tuning (record s {
    timer = tg0_timer1_start wait s.timer;
    task = record s.task { i2s_enabled = false };
    short_filter = (median.init s.short_filter).1;
    mini_filter = (median.init s.mini_filter).1;
  })

  -- Behind the timer: `enable` is `i2s_channel_enable`, and `now` the time then.
  abbrev pub begun :
      (I → I) → ℤ → PcmChunk → PcmChunk → PlayerState Q M → I → Playing Q M I F → Playing Q M I F
  begun enable now first c player i s = record s {
    player = player;
    held = some c;
    timer = my_gptimer_stop s.timer;
    line =
        start_line s.task.own s.dma_frames
          (record s.line { channel = enable i; chunk_start = chunk_start first });
    playback_start = now;
    task = record s.task {
      i2s_enabled = true;
      initial_sync = true;
      mutes = s.task.own.muted ∷ s.task.mutes;
    };
  }

  abbrev pub sounding : (I → I) → ℤ → PcmChunk → Playing Q M I F → Loaded Q M I → Started Q M I F
  sounding enable now first s aborted = refused
  sounding enable now first s loading = filling
  sounding enable now first s (full place c player i) =
      started place c (begun enable now first c player i s)

  -- What a round keeps of a chunk whose payload, or whose silence, was written.
  abbrev pub chunk_done : Bool → PcmChunk → Playing Q M I F → Line I → Playing Q M I F
  chunk_done true c s l = record s {
    line = l;
    player = free_pcm_chunk c s.player;
    held = none;
    dir = pos 0;
    dac_time = buffer_time s.task.own s.dma_frames;
  }
  chunk_done false c s l = record s { line = l; player = free_pcm_chunk c s.player; held = none }

  abbrev pub after_play : Bool → PcmChunk → Playing Q M I F → Played I → Rounded Q M I F
  after_play paid c s (played l) = rounded (chunk_done paid c s l)
  after_play paid c s faulted = broken
  after_play paid c s writing = blocked

module _ {Q M I F : Type 0} (i2s : I2s I) where
  unfoldable pub write_held : ℕ → Place → PcmChunk → Playing Q M I F → Rounded Q M I F
  write_held fuel place c s =
      after_play (has_payload place c) c s (play_chunk i2s fuel s.task.own place c s.line)

module _ {Q M I F : Type 0} (queue : Queue PcmChunk Q) (i2s : I2s I) (median : MedianFilter F) where
  -- The chunk is early by `wait` microseconds.
  unfoldable pub start_sound :
      ℕ → Tuning → (I → I) → ℕ → ℤ → PcmChunk → Playing Q M I F → Started Q M I F
  start_sound fuel tuning enable wait now c s =
      let s' = armed median tuning wait s in
      sounding enable now c s' (preload queue i2s fuel (some c) s.player s.line.channel)

  abbrev pub then_steer : Tuning → Option ℤ → Rounded Q M I F → Rounded Q M I F
  then_steer tuning diff (rounded s) = rounded (steer queue median tuning diff s)
  then_steer tuning diff broken = broken
  then_steer tuning diff blocked = blocked

  unfoldable pub sound_round :
      ℕ → Tuning → Option ℤ → Place → PcmChunk → Playing Q M I F → Rounded Q M I F
  unfolding write_held
  sound_round fuel tuning diff place c s = then_steer tuning diff (write_held i2s fuel place c s)

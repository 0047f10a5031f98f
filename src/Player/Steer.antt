-- ===== src/Player/Steer.antt =====
-- How `player_task` of components/lightsnapcast/player.c keeps the sound in time while it plays: the error of the
-- time, its medians, and what is done about it. The median filter is another project's library, and a parameter.
pub mod Bounded
pub mod First
use snapclient.Base.{
  ℕ, zero, suc, ◌+◌, ◌-◌, ◌*◌, ◌/◌, ◌==◌, List, [], ◌∷◌, Option, none, some, Bool, true, false, ltb,
  ◌&&◌, ◌||◌, if◌then◌else◌,
}
use snapclient.Base.Int.{ℤ, pos, negsuc, ◌+ℤ◌, ◌-ℤ◌, ltb_ℤ}
use snapclient.Rtos.{Queue}
use snapclient.Player.Memory.{PcmChunk}
use snapclient.Player.Settings.{SnapcastSetting}
use snapclient.Player.Chunks.{PlayerState, free_if_taken, pcm_chunk_queue_msg_waiting}
use snapclient.Player.Clock.{MedianFilter}
use snapclient.Player.Takeover.{Task, silenced}
use snapclient.Player.Timer.{Timer, my_gptimer_stop}
use snapclient.Player.Sync.{buf_us, dac_latency_us}
use snapclient.Player.Apll.{Apll, Predefined, adjust_apll}
use snapclient.Player.Playback.{Line}

-- `USE_SAMPLE_INSERTION`, or the APLL with its coefficients.
pub data Tuning : Type 0 where
  insertion : Tuning
  apll : Predefined → Tuning

-- `SHORT_OFFSET` and `MINI_OFFSET`, in microseconds.
abbrev pub short_offset : Tuning → ℕ
short_offset insertion = 128
short_offset (apll p) = 2

abbrev pub mini_offset : Tuning → ℕ
mini_offset insertion = 64
mini_offset (apll p) = 1

-- The task while the sound plays: its line to the driver, `playback_start_time_us`, `outputBufferDacTime_us`, the frames
-- of the DMA buffers, `chnk`, the two filters, `dir` and `insertedSamplesCounter`.
pub record Playing (Q M I F : Type 0) : Type 0 where
  pub player : PlayerState Q M
  pub task : Task
  pub timer : Timer
  pub line : Line I
  pub playback_start : ℤ
  pub dac_time : ℤ
  pub dma_frames : ℕ
  pub held : Option PcmChunk
  pub short_filter : F
  pub mini_filter : F
  pub dir : ℤ
  pub inserted : ℤ
  pub speed : Apll

-- Division of an int64_t, which cuts off.
abbrev pub div_ℤ : ℤ → ℕ → ℤ
div_ℤ (pos n) d = pos (n / d)
div_ℤ (negsuc n) d = pos 0 -ℤ pos (suc n / d)

abbrev pub times_million : ℤ → ℤ
times_million (pos n) = pos (n * 1000000)
times_million (negsuc n) = pos 0 -ℤ pos (suc n * 1000000)

-- When the sound begins: `samples_written` is what the DMA buffers hold, and `chunkStart` is set back by it.
unfoldable pub start_line : {I : Type 0} → SnapcastSetting → ℕ → Line I → Line I
start_line setting frames l = record l {
  samples_written = frames;
  chunk_start = l.chunk_start -ℤ pos (1000000 * frames / setting.sr);
}

-- The time that the DMA buffers hold, set behind the write of a payload.
abbrev pub buffer_time : SnapcastSetting → ℕ → ℤ
buffer_time setting frames = pos (1000000 * frames / setting.sr)

-- The filters have the error; the medians are that of the long and that of the short history.
abbrev pub is_early : Tuning → ℤ → ℤ → ℤ → Bool
is_early tuning age short_median mini_median =
    ltb_ℤ short_median (pos 0 -ℤ pos (short_offset tuning))
    && (ltb_ℤ mini_median (pos 0 -ℤ pos (mini_offset tuning))
        && ltb_ℤ age (pos 0 -ℤ pos (mini_offset tuning)))

abbrev pub is_late : Tuning → ℤ → ℤ → ℤ → Bool
is_late tuning age short_median mini_median =
    ltb_ℤ (pos (short_offset tuning)) short_median
    && (ltb_ℤ (pos (mini_offset tuning)) mini_median && ltb_ℤ (pos (mini_offset tuning)) age)

module _ {Q M I F : Type 0} where
  -- `actual_play_local_us - target_play_local_us`, by the difference to the server.
  unfoldable pub error_us : ℤ → Playing Q M I F → ℤ
  error_us diff s =
      let setting = s.task.own in
      let samples_played = pos s.line.samples_written -ℤ pos s.dma_frames in
      let target =
        s.line.chunk_start -ℤ diff +ℤ buf_us setting -ℤ s.dac_time -ℤ dac_latency_us setting in
      s.playback_start +ℤ div_ℤ (times_million samples_played) setting.sr -ℤ target

  -- The branch "RESYNCING HARD 2".
  unfoldable pub resync_again : Playing Q M I F → Playing Q M I F
  resync_again s = record s {
    player = free_if_taken s.held s.player;
    held = none;
    timer = my_gptimer_stop s.timer;
    task = record (silenced s.task) { initial_sync = false };
    inserted = pos 0;
  }

  abbrev pub towards : Tuning → ℤ → Playing Q M I F → Playing Q M I F
  towards insertion dir s = record s {
    dir = dir;
    line = record s.line { dir_insert_sample = dir };
    inserted = s.inserted -ℤ dir;
  }
  towards (apll p) dir s = record s { dir = dir }

  abbrev pub tuned : Tuning → Playing Q M I F → Playing Q M I F
  tuned insertion s = s
  tuned (apll p) s = record s { speed = adjust_apll p s.dir s.speed }

  unfoldable pub tune : Tuning → ℤ → ℤ → ℤ → Playing Q M I F → Playing Q M I F
  tune tuning age short_median mini_median s = tuned tuning (
      if is_early tuning age short_median mini_median
      then towards tuning (negsuc 0) s
      else if is_late tuning age short_median mini_median
      then towards tuning (pos 1) s
      else s)

abbrev pub too_far : ℤ → Bool
too_far median = ltb_ℤ (pos 2000) median || ltb_ℤ median (pos 0 -ℤ pos 2000)

module _ {Q M I F : Type 0} (queue : Queue PcmChunk Q) (median : MedianFilter F) where
  abbrev pub judge : Tuning → ℤ → ℤ × F → ℤ × F → Playing Q M I F → Playing Q M I F
  judge tuning age (short_median, short) (mini_median, mini) s =
      let s' = record s { short_filter = short; mini_filter = mini } in
      let filled = median.is_full short in
      if pcm_chunk_queue_msg_waiting queue s.player == 0 || (filled && too_far short_median)
      then resync_again s'
      else if filled
      then tune tuning age short_median mini_median s'
      else s'

  -- Behind the write of a chunk; `none` is a server's time that is not known.
  unfoldable pub steer : Tuning → Option ℤ → Playing Q M I F → Playing Q M I F
  unfolding resync_again tune error_us
  steer tuning none s = record s { player = free_if_taken s.held s.player; held = none }
  steer tuning (some diff) s =
      let age = error_us diff s in
      judge tuning age (median.insert age s.short_filter) (median.insert age s.mini_filter) s

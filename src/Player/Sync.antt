-- ===== src/Player/Sync.antt =====
-- The start of the sound in `player_task` of components/lightsnapcast/player.c: a chunk that is early waits for a
-- timer, and chunks that are late are thrown away.
pub mod Due
use snapclient.Base.{
  ℕ, zero, suc, ◌*◌, List, [], ◌∷◌, Option, none, some, Bool, true, false, if◌then◌else◌,
}
use snapclient.Base.Int.{ℤ, pos, negsuc, signed, ◌+ℤ◌, ◌-ℤ◌, ◌*ℤ◌, ltb_ℤ, pos_part, neg_part}
use snapclient.Rtos.{Queue}
use snapclient.Message.{Tv}
use snapclient.Player.Memory.{PcmChunk}
use snapclient.Player.Settings.{SnapcastSetting}
use snapclient.Player.Chunks.{PlayerState, free_pcm_chunk, free_if_taken}
use snapclient.Player.Takeover.{Task, silenced}
use snapclient.Player.Timer.{Timer, my_gptimer_stop, tg0_timer1_start}

-- The player's task with the chunk that it has, its timer, and `dir` and `insertedSamplesCounter`.
pub record Sounding (Q M : Type 0) : Type 0 where
  pub task : Task
  pub player : PlayerState Q M
  pub timer : Timer
  pub held : Option PcmChunk
  pub dir : ℤ
  pub inserted : ℤ

-- `chunkStart`, `buf_us` and `clientDacLatency_us`. An int32_t is its bit pattern.
abbrev pub chunk_start : PcmChunk → ℤ
chunk_start chunk = signed chunk.timestamp.sec *ℤ pos 1000000 +ℤ signed chunk.timestamp.usec

abbrev pub buf_us : SnapcastSetting → ℤ
buf_us setting = pos (setting.buf_ms * 1000)

abbrev pub dac_latency_us : SnapcastSetting → ℤ
dac_latency_us setting = signed setting.c_dac_lat_ms *ℤ pos 1000

unfoldable pub age_of : SnapcastSetting → ℤ → PcmChunk → ℤ
age_of setting server_now chunk =
    server_now -ℤ chunk_start chunk -ℤ buf_us setting +ℤ dac_latency_us setting

module _ {Q M : Type 0} (queue : Queue PcmChunk Q) where
  -- `while (c--)`: a chunk is taken and freed, until there is none.
  abbrev pub drop_taken :
      (Q → PlayerState Q M → Q × PlayerState Q M)
      → PlayerState Q M
      → Option PcmChunk × Q
      → Q × PlayerState Q M
  drop_taken go s (none, q) = (q, s)
  drop_taken go s (some chunk, q) = go q (free_pcm_chunk chunk s)

  unfoldable pub drop_late : ℕ → Q → PlayerState Q M → Q × PlayerState Q M
  drop_late zero q s = (q, s)
  drop_late (suc c) q s = drop_taken (λ q' s'. drop_late c q' s') s (queue.receive q)

  abbrev pub drop_from : ℕ → Option Q → PlayerState Q M → PlayerState Q M
  drop_from c none s = s
  drop_from c (some q) s = let (q', s') = drop_late c q s in record s' { queue = some q' }

  -- The branch "RESYNCING HARD 1"; `late` is the code's `ceil` of the age by the duration of a chunk.
  unfoldable pub resync_hard : ℕ → Sounding Q M → Sounding Q M
  unfolding drop_late
  resync_hard late s =
      let player = free_if_taken s.held s.player in
      record s {
        held = none;
        timer = my_gptimer_stop s.timer;
        player = drop_from late player.queue player;
        dir = pos 0;
        inserted = pos 0;
        task = silenced s.task;
      }

  -- The timer is set to the time that is left, with the channel disabled until then.
  unfoldable pub schedule : ℕ → Sounding Q M → Sounding Q M
  schedule wait s = record s {
    timer = tg0_timer1_start wait s.timer;
    task = record s.task { i2s_enabled = false };
  }

  abbrev pub by_age : (ℤ → ℕ) → ℤ → Sounding Q M → Sounding Q M
  by_age late_of age s =
      if ltb_ℤ age (pos 0) then schedule (neg_part age) s else resync_hard (late_of age) s

  -- `late_of` stands for that quotient, which the code computes in floating point.
  -- What is done with a chunk while the sound has not begun; `none` is a time that is not known yet.
  unfoldable pub begin_sync : (ℤ → ℕ) → Option ℤ → PcmChunk → Sounding Q M → Sounding Q M
  unfolding schedule resync_hard
  begin_sync late_of none chunk s = record s { held = none; player = free_if_taken s.held s.player }
  begin_sync late_of (some server_now) chunk s =
      by_age late_of (age_of s.task.own server_now chunk) s

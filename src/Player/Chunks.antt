-- ===== src/Player/Chunks.antt =====
-- The queue of chunks between the client's task and the player's task, in
-- components/lightsnapcast/player.c, and the start of the player. A chunk belongs to who holds it, until it
-- is freed.
pub mod Counting
pub mod Drained
pub mod Owned
use snapclient.Base.{
  ℕ, zero, suc, ◌+◌, ◌-◌, ◌/◌, ◌%◌, ◌^◌, ◌==◌, ◌&&◌, not, Bool, true, false, Option, none, some,
  List, [], ◌∷◌, ◌++◌, if◌then◌else◌,
}
use snapclient.Base.Int.{ℤ, pos, negsuc}
use snapclient.Rtos.{Queue}
use snapclient.Player.Memory.{PcmChunk, Fragment, free_pcm_chunk_fragments}
use snapclient.Player.Settings.{SnapcastSetting, SettingsState}

-- `pcmChkQHdl`, `playerstarted`, the settings, and what was freed: the chunks and the fragments.
pub record PlayerState (Q M : Type 0) : Type 0 where
  pub queue : Option Q
  pub started : Bool
  pub settings : SettingsState M
  pub freed : List PcmChunk
  pub freed_fragments : List Fragment

-- What starting the player needs: whether `player_setup_i2s` succeeds, the queue for the settings, the
-- number of frames in the DMA buffers, and the chunks that fit the buffer's time, which the code computes
-- in floating point from the sample rate, the frames of a chunk and the milliseconds.
pub record Drivers (M : Type 0) : Type 0 where
  pub setup_i2s : SnapcastSetting → Bool
  pub create_changed : Option M
  pub dma_frames : ℕ
  pub chunks_of : ℕ → ℕ → ℕ → ℕ

module _ {Q M : Type 0} where
  -- The fragments that `free_pcm_chunk_fragments` frees, and the structure.
  unfoldable pub free_pcm_chunk : PcmChunk → PlayerState Q M → PlayerState Q M
  free_pcm_chunk c s = record s {
    freed = c ∷ s.freed;
    freed_fragments = free_pcm_chunk_fragments c.fragments ++ s.freed_fragments;
  }

  abbrev pub free_if_taken : Option PcmChunk → PlayerState Q M → PlayerState Q M
  free_if_taken none s = s
  free_if_taken (some c) s = free_pcm_chunk c s

  -- What `xQueueSend` answers: a chunk that finds no place is freed.
  unfoldable pub after_send : PcmChunk → PlayerState Q M → Bool × Q → ℤ × PlayerState Q M
  unfolding free_pcm_chunk
  after_send c s (true, q) = (pos 0, record s { queue = some q })
  after_send c s (false, q) = (pos 0, free_pcm_chunk c (record s { queue = some q }))

module _ {Q M : Type 0} (queue : Queue PcmChunk Q) where
  -- `while (uxQueueMessagesWaiting (*queueHandle))`, on fuel: `none` is a loop that still runs.
  abbrev pub drain_on :
      (Q → PlayerState Q M → Option (PlayerState Q M))
      → PlayerState Q M
      → Option PcmChunk × Q
      → Option (PlayerState Q M)
  drain_on go s (c, q) = go q (free_if_taken c s)

  unfoldable pub drain : ℕ → Q → PlayerState Q M → Option (PlayerState Q M)
  unfolding free_pcm_chunk
  drain zero q s = none
  drain (suc fuel) q s =
      if queue.waiting q == 0
      then some s
      else drain_on (λ q' s'. drain fuel q' s') s (queue.receive q)

  -- With `pdFAIL` or `pdPASS`; at its end the queue is deleted.
  abbrev pub deleted : Option (PlayerState Q M) → Option (ℕ × PlayerState Q M)
  deleted none = none
  deleted (some s) = some (1, record s { queue = none })

  abbrev pub destroy_on : ℕ → Option Q → PlayerState Q M → Option (ℕ × PlayerState Q M)
  destroy_on fuel none s = some (0, s)
  destroy_on fuel (some q) s = deleted (drain fuel q s)

  unfoldable pub destroy_pcm_queue : ℕ → PlayerState Q M → Option (ℕ × PlayerState Q M)
  destroy_pcm_queue fuel s = destroy_on fuel s.queue s

  unfoldable pub pcm_chunk_queue_msg_waiting : PlayerState Q M → ℕ
  pcm_chunk_queue_msg_waiting s = elim s.queue [ none ↦ 0 | some q ↦ queue.waiting q ]

  -- The number of chunks that the queue is made for; the difference is computed in 32 bits.
  abbrev pub entries : Drivers M → SnapcastSetting → ℕ
  entries drivers c =
      let frames = if c.chk_in_frames == 0 then 1152 else c.chk_in_frames in
      (drivers.chunks_of c.sr frames c.buf_ms + 2 ^ 32 - drivers.dma_frames / frames % 2 ^ 32)
      % 2 ^ 32

  -- The task is created at the end. What it does in the meantime is a step of its own.
  unfoldable pub start_player : Drivers M → SnapcastSetting → PlayerState Q M → ℤ × PlayerState Q M
  start_player drivers setting s =
      if s.started
      then (negsuc 0, s)
      else if not (drivers.setup_i2s setting)
      then (negsuc 0, s)
      else (
        pos 0,
        record s {
          started = true;
          settings = record s.settings { changed = drivers.create_changed; has_task = true };
          queue = elim s.queue [
            | none ↦ queue.create (entries drivers s.settings.current)
            | some q ↦ some q
          ];
        },
      )

  -- A chunk that comes before there is a queue is freed, and starts the player; `full` is
  -- `latency_buffer_full`.
  unfoldable pub insert_pcm_chunk :
      Drivers M → Bool → PcmChunk → PlayerState Q M → ℤ × PlayerState Q M
  unfolding free_pcm_chunk start_player after_send
  insert_pcm_chunk drivers full c s = elim s.queue [
    | none ↦
        let s' = free_pcm_chunk c s in
        let setting = s.settings.current in
        (
          negsuc 1,
          if not setting.muted && s.settings.got_settings
              then (start_player drivers setting s').1
              else s',
        )
    | some q ↦ if full then after_send c s (queue.send c q) else (negsuc 2, free_pcm_chunk c s)
  ]

  -- `player_task` asks for a chunk if it has none.
  abbrev pub take_chunk : Option PcmChunk → PlayerState Q M → Option PcmChunk × PlayerState Q M
  take_chunk (some c) s = (some c, s)
  take_chunk none s = elim s.queue [
    | none ↦ (none, s)
    | some q ↦ let (c, q') = queue.receive q in (c, record s { queue = some q' })
  ]

-- ===== src/Player/Sync/Due.antt =====
-- When the sound of components/lightsnapcast/player.c begins, and which chunks are thrown away for it.
use snapclient.Base.{ℕ, suc, ◌≡◌, List, none, some, take, drop}
use snapclient.Base.Int.{ℤ, pos, negsuc, ◌+ℤ◌}
use snapclient.Rtos.{Queue}
use snapclient.Player.Memory.{PcmChunk}
use snapclient.Player.Settings.{SnapcastSetting}
use snapclient.Player.Chunks.{free_if_taken}
use snapclient.Player.Chunks.Drained.{free_all}
use snapclient.Player.Takeover.{silenced}
use snapclient.Player.Timer.{my_gptimer_stop}
use snapclient.Player.Sync.{Sounding, buf_us, chunk_start, dac_latency_us, schedule}

-- The age is exact: the chunk is heard when it is as old as the buffer is long, less or more this time.
abbrev pub Exact : SnapcastSetting → ℤ → PcmChunk → ℤ → Type 0
Exact setting server_now chunk (negsuc n) =
    server_now +ℤ pos (suc n) +ℤ dac_latency_us setting ≡ chunk_start chunk +ℤ buf_us setting
Exact setting server_now chunk (pos n) =
    server_now +ℤ dac_latency_us setting ≡ chunk_start chunk +ℤ buf_us setting +ℤ pos n

module _ {Q M : Type 0} (queue : Queue PcmChunk Q) (items : Q → List PcmChunk) where
  -- The chunk that the task had and the late ones are freed, in their order, and the queue has the others.
  pub record Resynced (late : ℕ) (q : Q) (s s' : Sounding Q M) : Type 0 where
    pub left : Q
    pub held : s'.held ≡ none
    pub has : s'.player.queue ≡ some left
    pub rest : items left ≡ drop late (items q)
    pub freed :
        s'.player.freed ≡ (free_all (take late (items q)) (free_if_taken s.held s.player)).freed
    pub timer : s'.timer ≡ my_gptimer_stop s.timer
    pub task : s'.task ≡ silenced s.task

  -- By the age of the chunk.
  abbrev pub Begun : (ℤ → ℕ) → Q → Sounding Q M → ℤ → Sounding Q M → Type 0
  Begun late_of q s (negsuc n) s' = s' ≡ schedule queue (suc n) s
  Begun late_of q s (pos n) s' = Resynced (late_of (pos n)) q s s'

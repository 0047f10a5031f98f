-- ===== src/Player/Preload.antt =====
-- The loop of `player_task` in components/lightsnapcast/player.c that fills the DMA buffers before the channel is
-- enabled.
pub mod Filled
use snapclient.Base.{
  ℕ, zero, suc, ◌-◌, List, [], ◌∷◌, take, Option, none, some, Bool, true, false, ◌==◌,
  if◌then◌else◌,
}
use snapclient.Rtos.{Queue}
use snapclient.Player.Memory.{PcmChunk, Fragment}
use snapclient.Player.Chunks.{PlayerState, free_pcm_chunk, take_chunk}
use snapclient.Player.Playback.{I2s, Place}

-- The buffers are full, with the place in the chunk at hand; the program is aborted by `ESP_ERROR_CHECK`, as the driver
-- takes no null pointer; or the loop still runs.
pub data Loaded (Q M I : Type 0) : Type 0 where
  full : Place → PcmChunk → PlayerState Q M → I → Loaded Q M I
  aborted : Loaded Q M I
  loading : Loaded Q M I

module _ {Q M I : Type 0} (queue : Queue PcmChunk Q) (i2s : I2s I) where
  -- A fragment that was taken whole: the loop begins anew with the chunk if it has another one.
  abbrev pub taken_whole :
      (Option PcmChunk → PlayerState Q M → I → Loaded Q M I)
      → PcmChunk
      → List Fragment
      → PlayerState Q M
      → I
      → Loaded Q M I
  taken_whole go c [] s i = go none (free_pcm_chunk c s) i
  taken_whole go c (f ∷ fs) s i = go (some c) s i

  abbrev pub preload_on :
      (Option PcmChunk → PlayerState Q M → I → Loaded Q M I)
      → PcmChunk
      → List ℕ
      → ℕ
      → List Fragment
      → PlayerState Q M
      → ℕ × I
      → Loaded Q M I
  preload_on go c bytes size fs s (n, i) =
      let more = taken_whole go c fs s i in
      if n == size
      then more
      else full (record { payload = some bytes; at = n; size = size - n; later = fs }) c s i

  abbrev pub preload_first :
      (Option PcmChunk → PlayerState Q M → I → Loaded Q M I)
      → PcmChunk
      → List Fragment
      → PlayerState Q M
      → I
      → Loaded Q M I
  preload_first go c [] s i = aborted
  preload_first go c (f ∷ fs) s i = elim f.payload [
    | none ↦ aborted
    | some bytes ↦ preload_on go c bytes f.size fs s (i2s.preload (take f.size bytes) i)
  ]

  -- Without a chunk the loop waits for one.
  abbrev pub preload_held :
      (Option PcmChunk → PlayerState Q M → I → Loaded Q M I)
      → Option PcmChunk × PlayerState Q M
      → I
      → Loaded Q M I
  preload_held go (none, s) i = go none s i
  preload_held go (some c, s) i = preload_first go c c.fragments s i

  unfoldable pub preload : ℕ → Option PcmChunk → PlayerState Q M → I → Loaded Q M I
  preload zero held s i = loading
  preload (suc fuel) held s i =
      preload_held (λ h s' i'. preload fuel h s' i') (take_chunk queue held s) i

-- ===== src/Player/Dma.antt =====
-- The buffers of the DMA in `player_setup_i2s` of components/lightsnapcast/player.c, where the speed of the sound is
-- tuned by the APLL: a chunk is cut in halves until a part fits a buffer.
pub mod Bounds
use snapclient.Base.{ℕ, zero, suc, ◌*◌, ◌/◌, ◌%◌, ◌-◌, ◌^◌, leb, ltb, ◌==◌, ◌||◌, if◌then◌else◌}

-- `i2sDmaBufCnt` without the factor `CHNK_CTRL_CNT`, and `i2sDmaBufMaxLen`; `cannot` is -1, and `cutting` a loop that
-- still runs.
pub data DmaBuffers : Type 0 where
  buffers : ℕ → ℕ → DmaBuffers
  cannot : DmaBuffers
  cutting : DmaBuffers

unfoldable pub cut : ℕ → ℕ → ℕ → DmaBuffers
cut zero cnt len = cutting
cut (suc fuel) cnt len =
    let halved = if len % 2 == 0 then cut fuel (cnt * 2) (len / 2) else cannot in
    if leb 1023 len || leb cnt 1 then halved else buffers cnt len

-- The settings may be empty still. The length of the chunk goes into an int, which is its bit pattern here: a
-- negative one is halved once and then counts as short enough.
unfoldable pub dma_buffers : ℕ → ℕ → DmaBuffers
unfolding cut
dma_buffers fuel chk_in_frames =
    let frames = if chk_in_frames == 0 then 1152 else chk_in_frames in
    if ltb frames (2 ^ 31)
    then cut fuel 1 frames
    else if frames % 2 == 0
    then buffers 2 (2 ^ 32 - (2 ^ 32 - frames) / 2)
    else cannot

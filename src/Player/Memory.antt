-- ===== src/Player/Memory.antt =====
-- The chunks of components/lightsnapcast/player.c and their memory. The heap is a parameter `H`, with
-- what the ESP-IDF allocator answers; other tasks may free memory while this one waits.
pub mod Laws
use snapclient.Base.{
  ℕ, zero, suc, List, [], ◌∷◌, Option, none, some, Bool, true, false, ltb, leb, ◌==◌, ◌&&◌,
  if◌then◌else◌, length,
}
use snapclient.Base.Int.{ℤ, pos, negsuc, ltb_ℤ}
use snapclient.Message.{Tv}

-- `pcm_chunk_fragment_t`, without the link to the next one: a chunk has the list of its fragments.
pub record Fragment : Type 0 where
  pub size : ℕ
  pub payload : Option (List ℕ)

pub record PcmChunk : Type 0 where
  pub timestamp : Tv
  pub total_size : ℕ
  pub fragments : List Fragment
  pub caps : ℕ

-- The allocator: `calloc` of a structure, the two questions on free memory, `heap_caps_malloc` (with
-- capabilities 0 it is `malloc`), and `vTaskDelay` for one millisecond.
pub record Heap (H : Type 0) : Type 0 where
  pub calloc : H → Bool × H
  pub free_size : ℕ → H → ℕ
  pub largest_free_block : ℕ → H → ℕ
  pub malloc_caps : ℕ → ℕ → H → Option (List ℕ) × H
  pub delay : H → H

-- `CONFIG_SPIRAM` and `CONFIG_SPIRAM_BOOT_INIT`.
pub data Spiram : Type 0 where
  boot_init plain absent : Spiram

abbrev pub fragment_of : ℕ → Option (List ℕ) → List Fragment
fragment_of size payload = record { size = size; payload = payload } ∷ []

-- The capability masks of the target: `MALLOC_CAP_8BIT | MALLOC_CAP_SPIRAM`,
-- `MALLOC_CAP_32BIT | MALLOC_CAP_EXEC` and `MALLOC_CAP_8BIT`.
abbrev pub cap_spiram : ℕ
cap_spiram = 0x404

abbrev pub cap_exec : ℕ
cap_exec = 0x3

abbrev pub cap_8bit : ℕ
cap_8bit = 0x4

-- Two structures filled with zeros.
abbrev pub empty_chunk : PcmChunk
empty_chunk = record {
  timestamp = record { sec = 0; usec = 0 };
  total_size = 0;
  fragments = fragment_of 0 none;
  caps = 0;
}

module _ {H : Type 0} (heap : Heap H) where
  -- The chunk with a payload of `bytes`, or -2 as it stands.
  unfoldable pub take_block : PcmChunk → ℕ → Option (List ℕ) × H → ℤ × PcmChunk × H
  take_block chunk bytes (none, h) = (negsuc 1, chunk, h)
  take_block chunk bytes (some block, h) =
      (pos 0, record chunk { total_size = bytes; fragments = fragment_of bytes (some block) }, h)

  -- The chunk that comes in has one fragment, which is still empty.
  unfoldable pub allocate_pcm_chunk_memory_caps : PcmChunk → ℕ → ℕ → H → ℤ × PcmChunk × H
  unfolding take_block
  allocate_pcm_chunk_memory_caps chunk bytes caps h =
      let chunk' = record chunk { caps = caps } in
      if caps == 0
      then take_block chunk' bytes (heap.malloc_caps bytes 0 h)
      else if leb bytes (heap.free_size caps h) && leb bytes (heap.largest_free_block caps h)
      then take_block chunk' bytes (heap.malloc_caps bytes caps h)
      else (negsuc 2, chunk', h)

  -- One round without SPIRAM: instruction memory first, then ordinary memory.
  unfoldable pub try_internal : PcmChunk → ℕ → H → ℤ × PcmChunk × H
  unfolding allocate_pcm_chunk_memory_caps
  try_internal chunk bytes h =
      let (ret, chunk', h') = allocate_pcm_chunk_memory_caps chunk bytes cap_exec h in
      if ltb_ℤ ret (pos 0)
      then allocate_pcm_chunk_memory_caps chunk' bytes cap_8bit h'
      else (ret, chunk', h')

  -- `for (i = 0; i < x; i++)`, with the rounds left and what the last one answered.
  unfoldable pub retry_internal : ℕ → ℤ → PcmChunk → ℕ → H → ℤ × PcmChunk × H
  unfolding try_internal
  retry_internal zero ret chunk bytes h = (ret, chunk, h)
  retry_internal (suc rounds) ret chunk bytes h =
      let (ret', chunk', h') = try_internal chunk bytes h in
      let again = retry_internal rounds ret' chunk' bytes (heap.delay h') in
      if ltb_ℤ ret' (pos 0) then again else (ret', chunk', h')

  unfoldable pub fill_chunk : Spiram → PcmChunk → ℕ → H → ℤ × PcmChunk × H
  unfolding retry_internal
  fill_chunk boot_init chunk bytes h = allocate_pcm_chunk_memory_caps chunk bytes cap_spiram h
  fill_chunk plain chunk bytes h = allocate_pcm_chunk_memory_caps chunk bytes 0 h
  fill_chunk absent chunk bytes h = retry_internal 50 (negsuc 2) chunk bytes h

  -- Without memory for the payload the chunk stands for as many zeros.
  unfoldable pub silence_if_failed : ℕ → ℤ × PcmChunk × H → PcmChunk × H
  silence_if_failed bytes (ret, chunk, h) =
      if ltb_ℤ ret (pos 0)
      then (record chunk { total_size = bytes; fragments = fragment_of bytes none }, h)
      else (chunk, h)

  -- `none` is -2, where a structure could not be allocated: `*pcmChunk` is then null or freed.
  unfoldable pub allocate_pcm_chunk_memory : Spiram → ℕ → H → Option PcmChunk × H
  unfolding fill_chunk silence_if_failed
  allocate_pcm_chunk_memory config bytes h =
      let (got_chunk, h1) = heap.calloc h in
      let (got_fragment, h2) = heap.calloc h1 in
      let (chunk, h3) = silence_if_failed bytes (fill_chunk config empty_chunk bytes h2) in
      if got_chunk then if got_fragment then (some chunk, h3) else (none, h2) else (none, h1)

-- The fragments that `free_pcm_chunk_fragments` gives back: it calls itself on the next one without
-- freeing the one at hand.
unfoldable pub free_pcm_chunk_fragments : List Fragment → List Fragment
free_pcm_chunk_fragments [] = []
free_pcm_chunk_fragments (f ∷ []) = f ∷ []
free_pcm_chunk_fragments (f ∷ g ∷ fs) = free_pcm_chunk_fragments (g ∷ fs)

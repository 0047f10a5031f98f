-- ===== src/Examples/Memory.antt =====
-- The memory of the chunks of components/lightsnapcast/player.c on a concrete allocator.
use snapclient.Base.{
  ℕ, ◌-◌, List, [], ◌≡◌, ◌⊎◌, sym, ap, ◌∙◌, replicate, length, length-replicate, Option, some, none,
  true,
}
use snapclient.Player.Memory.{Heap, PcmChunk, absent, allocate_pcm_chunk_memory}
use snapclient.Player.Memory.Laws.{IsChunk, allocate_pcm_chunk_memory-IsChunk}

-- A heap with memory for some blocks that are as long as one asks for.
abbrev blocks_left : Heap ℕ
blocks_left = record {
  calloc = λ h. (true, h);
  free_size = λ caps h. 4096;
  largest_free_block = λ caps h. 4096;
  malloc_caps = λ bytes caps h. (some (replicate bytes 0), h - 1);
  delay = λ h. h;
}

abbrev block_of : Option (List ℕ) → List ℕ
block_of none = []
block_of (some block) = block

blocks_left-fits :
    (bytes caps h h' : ℕ) (block : List ℕ)
    → blocks_left.malloc_caps bytes caps h ≡ (some block, h')
    → length block ≡ bytes
blocks_left-fits bytes caps h h' block e =
    ap (λ (r : Option (List ℕ)). length (block_of r))
      (sym (ap (λ (r : Option (List ℕ) × ℕ). r.0) e))
    ∙ length-replicate bytes 0

allocate_pcm_chunk_memory-IsChunk_example :
    ((allocate_pcm_chunk_memory blocks_left absent 64 3).0 ≡ none)
    ⊎ ((c : PcmChunk) × ((allocate_pcm_chunk_memory blocks_left absent 64 3).0 ≡ some c)
        × IsChunk 64 c)
allocate_pcm_chunk_memory-IsChunk_example =
    allocate_pcm_chunk_memory-IsChunk blocks_left blocks_left-fits absent 64 3

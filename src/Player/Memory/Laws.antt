-- ===== src/Player/Memory/Laws.antt =====
-- What `allocate_pcm_chunk_memory` of components/lightsnapcast/player.c hands out, and what
-- `free_pcm_chunk` gives back.
use snapclient.Base.{
  ℕ, zero, suc, List, [], ◌∷◌, Option, none, some, true, length, ◌≡◌, refl, ◌++◌, sym, ◌∙◌,
  Bool-cases, leb, ◌==◌, ◌&&◌, ◌⊎◌, inl, inr,
}
use mathlib.Core.Bool.{false≢true}
use snapclient.Base.Int.{ℤ, pos, negsuc, ltb_ℤ}
use snapclient.Player.Memory.{
  Fragment, PcmChunk, Heap, Spiram, boot_init, plain, absent, fragment_of, take_block,
  allocate_pcm_chunk_memory_caps, try_internal, retry_internal, fill_chunk, silence_if_failed,
  empty_chunk, cap_exec, cap_8bit, cap_spiram, allocate_pcm_chunk_memory, free_pcm_chunk_fragments,
}

-- A chunk of `bytes`: one fragment, as long as the chunk, with a block of that length or silence.
pub record IsChunk (bytes : ℕ) (c : PcmChunk) : Type 0 where
  pub total : c.total_size ≡ bytes
  pub whole :
      (c.fragments ≡ fragment_of bytes none)
      ⊎ ((block : List ℕ) × (c.fragments ≡ fragment_of bytes (some block)) × (length block ≡ bytes))

module _ {H : Type 0} (heap : Heap H)
    (fits : (bytes caps : ℕ) (h h' : H) (block : List ℕ)
      → heap.malloc_caps bytes caps h ≡ (some block, h')
      → length block ≡ bytes) where
  -- A round fails, or fills the chunk.
  abbrev Filled : ℕ → ℤ × PcmChunk × H → Type 0
  Filled bytes (ret, c, h) = (ltb_ℤ ret (pos 0) ≡ true) ⊎ IsChunk bytes c

  take_block-Filled :
      (c : PcmChunk) (bytes caps : ℕ) (h : H) (r : Option (List ℕ) × H)
      → heap.malloc_caps bytes caps h ≡ r
      → Filled bytes (take_block heap c bytes r)
  unfolding take_block
  take_block-Filled c bytes caps h (none, h') e = inl refl
  take_block-Filled c bytes caps h (some block, h') e =
      inr (record { total = refl; whole = inr (block, refl, fits bytes caps h h' block e) })

  caps-Filled :
      (c : PcmChunk) (bytes caps : ℕ) (h : H)
      → Filled bytes (allocate_pcm_chunk_memory_caps heap c bytes caps h)
  unfolding allocate_pcm_chunk_memory_caps
  caps-Filled c bytes caps h =
      let c' = record c { caps = caps } in
      elim (Bool-cases (caps == 0)) [
        | inl z ↦ rw z (take_block-Filled c' bytes 0 h _ refl)
        | inr nz ↦
            elim (Bool-cases
              (leb bytes (heap.free_size caps h) && leb bytes (heap.largest_free_block caps h))) [
                | inl room ↦ rw (nz, room) (take_block-Filled c' bytes caps h _ refl)
                | inr full ↦ rw (nz, full) (inl refl)
              ]
      ]

  try-Filled : (c : PcmChunk) (bytes : ℕ) (h : H) → Filled bytes (try_internal heap c bytes h)
  unfolding try_internal
  try-Filled c bytes h =
      let (ret, c', h') = allocate_pcm_chunk_memory_caps heap c bytes cap_exec h in
      elim (Bool-cases (ltb_ℤ ret (pos 0))) [
        | inl failed ↦ rw failed (caps-Filled c' bytes cap_8bit h')
        | inr got ↦ rw got (caps-Filled c bytes cap_exec h)
      ]

  retry-Filled :
      (rounds : ℕ) (ret : ℤ) (c : PcmChunk) (bytes : ℕ) (h : H)
      → ltb_ℤ ret (pos 0) ≡ true
      → Filled bytes (retry_internal heap rounds ret c bytes h)
  unfolding retry_internal
  retry-Filled zero ret c bytes h e = inl e
  retry-Filled (suc rounds) ret c bytes h e =
      let (ret', c', h') = try_internal heap c bytes h in
      elim (Bool-cases (ltb_ℤ ret' (pos 0))) [
        | inl failed ↦ rw failed (retry-Filled rounds ret' c' bytes (heap.delay h') failed)
        | inr got ↦ rw got (try-Filled c bytes h)
      ]

  fill-Filled :
      (config : Spiram) (c : PcmChunk) (bytes : ℕ) (h : H)
      → Filled bytes (fill_chunk heap config c bytes h)
  unfolding fill_chunk
  fill-Filled boot_init c bytes h = caps-Filled c bytes cap_spiram h
  fill-Filled plain c bytes h = caps-Filled c bytes 0 h
  fill-Filled absent c bytes h = retry-Filled 50 (negsuc 2) c bytes h refl

  silence-IsChunk :
      (bytes : ℕ) (r : ℤ × PcmChunk × H)
      → Filled bytes r
      → IsChunk bytes (silence_if_failed heap bytes r).0
  unfolding silence_if_failed
  silence-IsChunk bytes (ret, c, h) f = elim (Bool-cases (ltb_ℤ ret (pos 0))) [
    | inl failed ↦ rw failed (record { total = refl; whole = inl refl })
    | inr got ↦ rw got (elim f [ inl failed ↦ absurd (false≢true (sym got ∙ failed)) | inr k ↦ k ])
  ]

  -- Under every configuration and whatever the allocator answers: no chunk comes back, or one of the
  -- size asked for, in one fragment, with a block of that size or with silence.
  pub allocate_pcm_chunk_memory-IsChunk :
      (config : Spiram) (bytes : ℕ) (h : H)
      → ((allocate_pcm_chunk_memory heap config bytes h).0 ≡ none)
        ⊎ ((c : PcmChunk) × ((allocate_pcm_chunk_memory heap config bytes h).0 ≡ some c)
            × IsChunk bytes c)
  unfolding allocate_pcm_chunk_memory
  allocate_pcm_chunk_memory-IsChunk config bytes h =
      let (got_chunk, h1) = heap.calloc h in
      let (got_fragment, h2) = heap.calloc h1 in
      elim (Bool-cases got_chunk) [
        | inr no_chunk ↦ inl (rw no_chunk)
        | inl chunk ↦ elim (Bool-cases got_fragment) [
          | inr no_fragment ↦ inl (rw (chunk, no_fragment))
          | inl fragment ↦ inr (
            (silence_if_failed heap bytes (fill_chunk heap config empty_chunk bytes h2)).0,
            rw (chunk, fragment),
            silence-IsChunk bytes (fill_chunk heap config empty_chunk bytes h2)
                (fill-Filled config empty_chunk bytes h2),
          )
        ]
      ]

-- Only the last fragment of a chunk is given back, however many it has: all of a chunk that
-- `allocate_pcm_chunk_memory` made, and one of the fragments of any other.
pub free_pcm_chunk_fragments-last :
    (fs : List Fragment) (f : Fragment) → free_pcm_chunk_fragments (fs ++ f ∷ []) ≡ f ∷ []
unfolding free_pcm_chunk_fragments
free_pcm_chunk_fragments-last [] f = refl
free_pcm_chunk_fragments-last (g ∷ []) f = refl
free_pcm_chunk_fragments-last (g ∷ k ∷ fs) f = free_pcm_chunk_fragments-last (k ∷ fs) f

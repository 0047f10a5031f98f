-- ===== src/Player/Preload/Filled.antt =====
-- What components/lightsnapcast/player.c gives to the DMA buffers before the sound begins.
use snapclient.Base.{
  ℕ, zero, suc, ◌+◌, ◌-◌, ◌≤◌, ◌<◌, ◌≡◌, refl, ap, sym, ◌∙◌, arith, List, [], ◌∷◌, ◌++◌, length,
  take, take_all, length-append, Option, none, some, Bool, true, false, ltb, ltb→lt, ◌==◌, min, map,
  All, Bool-cases, inl, inr,
}
use mathlib.Core.List.{append_assoc}
use snapclient.Rtos.{Queue, IsQueue, Received}
use snapclient.Player.Memory.{PcmChunk, Fragment}
use snapclient.Player.Chunks.{PlayerState, free_pcm_chunk}
use snapclient.Player.Chunks.Drained.{free_all}
use snapclient.Player.Playback.{I2s, IsI2s}
use snapclient.Player.Playback.Heard.{fragments_of, joined}
use snapclient.Player.Preload.{Loaded, full, preload_on, preload_first, preload}

-- The bytes of a chunk, and a chunk with one fragment that has its memory: what `allocate_pcm_chunk_memory` hands out,
-- unless there was none.
abbrev pub first_payload : List Fragment → List ℕ
first_payload [] = []
first_payload (f ∷ fs) = elim f.payload [ none ↦ [] | some bytes ↦ bytes ]

abbrev pub payload_of : PcmChunk → List ℕ
payload_of c = first_payload c.fragments

abbrev pub IsPlain : PcmChunk → Type 0
IsPlain c = c.fragments ≡ fragments_of (payload_of c ∷ [])

abbrev pub bytes_of : List PcmChunk → List ℕ
bytes_of cs = joined (map payload_of cs)

received_some :
    {A Q : Type 0} (items : Q → List A) (c : A) (cs : List A) (r : Option A × Q)
    → Received items (c ∷ cs) r
    → (q : Q) × (r ≡ (some c, q)) × (items q ≡ cs)
received_some items c cs (none, q) (e, f) = absurd (cc)
received_some items c cs (some a, q) e = (q, cc, cc)

module _ {Q M I : Type 0} (queue : Queue PcmChunk Q) (items : Q → List PcmChunk) (i2s : I2s I)
    (sent : I → List ℕ) (room : I → ℕ) (runs : I → Bool) where
  -- The chunks that are gone were given to the driver whole and freed; of the one at hand the bytes up to `at` were
  -- given; the others are in the queue still; and all the room is used.
  pub data Filled (old : List PcmChunk) (s : PlayerState Q M) (i : I) : Loaded Q M I → Type 0 where
    filled :
        (gone : List PcmChunk) (c : PcmChunk) (at : ℕ) (q : Q) (s' : PlayerState Q M) (i' : I)
        → old ≡ gone ++ c ∷ items q
        → s'.queue ≡ some q
        → s'.freed ≡ (free_all gone s).freed
        → at < length (payload_of c)
        → sent i' ≡ sent i ++ (bytes_of gone ++ take at (payload_of c))
        → length (bytes_of gone) + at ≡ room i
        → Filled old s i (
            full
              (record {
                payload = some (payload_of c);
                at = at;
                size = length (payload_of c) - at;
                later = [];
              })
              c
              s'
              i')

  abbrev again : ℕ → Option PcmChunk → PlayerState Q M → I → Loaded Q M I
  again fuel h s i = preload queue i2s fuel h s i

  -- With a chunk that was received the loop does what it does with one that it had.
  receive_lem :
      (fuel : ℕ) (c : PcmChunk) (q : Q) (s : PlayerState Q M) (i : I) (q0 : Q)
      → s.queue ≡ some q0
      → queue.receive q0 ≡ (some c, q)
      → preload queue i2s (suc fuel) none s i
        ≡ preload queue i2s (suc fuel) (some c) (record s { queue = some q }) i
  unfolding preload
  receive_lem fuel c q s i q0 e f = rw (e, f) refl

  plain_first :
      (fuel : ℕ) (c : PcmChunk) (s : PlayerState Q M) (i : I)
      → IsPlain c
      → preload queue i2s (suc fuel) (some c) s i
        ≡ preload_on queue i2s
            (again fuel)
            c
            (payload_of c)
            (length (payload_of c))
            []
            s
            (i2s.preload (payload_of c) i)
  unfolding preload
  plain_first fuel c s i p =
      ap (λ fs. preload_first queue i2s (again fuel) c fs s i) p
      ∙ ap
          (λ (b : List ℕ).
            preload_on queue i2s (again fuel) c (payload_of c) (length (payload_of c)) [] s
              (i2s.preload b i))
          (take_all (payload_of c) (length (payload_of c)) (omega arith))

  free_all-queue :
      (cs : List PcmChunk) (s : PlayerState Q M) (o : Option Q)
      → (free_all cs (record s { queue = o })).freed ≡ (free_all cs s).freed
  unfolding free_all free_pcm_chunk
  free_all-queue [] s o = refl
  free_all-queue (c ∷ cs) s o = free_all-queue cs (free_pcm_chunk c s) o

  -- One chunk more in front.
  also_gone :
      (c c2 : PcmChunk) (cs : List PcmChunk) (q : Q) (s : PlayerState Q M) (i i' : I)
      (r : Loaded Q M I)
      → length (payload_of c) ≤ room i
      → room i' ≡ room i - length (payload_of c)
      → sent i' ≡ sent i ++ payload_of c
      → Filled (c2 ∷ cs) (record (free_pcm_chunk c s) { queue = some q }) i' r
      → Filled (c ∷ c2 ∷ cs) s i r
  unfolding free_all
  also_gone c c2 cs q s i i' r fits left e
        (filled gone c' at q' s' i2 old has freed part given used) =
      filled (c ∷ gone) c' at q' s' i2 (ap (◌∷◌ c) old) has
        (freed ∙ free_all-queue gone (free_pcm_chunk c s) (some q)) part
        (given
          ∙ ap (λ (xs : List ℕ). xs ++ (bytes_of gone ++ take at (payload_of c'))) e
          ∙ append_assoc (sent i) (payload_of c) (bytes_of gone ++ take at (payload_of c'))
          ∙ ap (λ (xs : List ℕ). sent i ++ xs)
              (sym (append_assoc (payload_of c) (bytes_of gone) (take at (payload_of c')))))
        (omega (arith, used, left, fits, length-append (payload_of c) (bytes_of gone)))

  -- The driver took a part, or all of it.
  partly :
      (fuel : ℕ) (c : PcmChunk) (b : List ℕ) (n size : ℕ) (s : PlayerState Q M) (i : I)
      → n < size
      → preload_on queue i2s (again fuel) c b size [] s (n, i)
        ≡ full (record { payload = some b; at = n; size = size - n; later = [] }) c s i
  partly fuel c b n size s i less =
      let not_all : (n == size) ≡ false = ground arith in rw not_all refl

  wholly :
      (fuel : ℕ) (c : PcmChunk) (b : List ℕ) (size : ℕ) (s : PlayerState Q M) (i : I)
      → preload_on queue i2s (again fuel) c b size [] s (size, i)
        ≡ preload queue i2s fuel none (free_pcm_chunk c s) i
  wholly fuel c b size s i = let all : (size == size) ≡ true = ground arith in rw all refl

  part_lem :
      (fuel : ℕ) (c : PcmChunk) (cs : List PcmChunk) (q : Q) (s : PlayerState Q M) (i : I)
      → IsI2s i2s sent room runs
      → s.queue ≡ some q
      → items q ≡ cs
      → IsPlain c
      → room i < length (payload_of c)
      → Filled (c ∷ cs) s i (preload queue i2s (suc fuel) (some c) s i)
  unfolding free_all
  part_lem fuel c cs q s i dma e held p less =
      let b = payload_of c in
      let (i', done, given, left) = dma.preloaded b i in
      let n : min (length b) (room i) ≡ room i = omega (arith, less) in
      let eq =
        plain_first fuel c s i p
        ∙ ap (λ r. preload_on queue i2s (again fuel) c b (length b) [] s r) done
        ∙ ap (λ (m : ℕ). preload_on queue i2s (again fuel) c b (length b) [] s (m, i')) n
        ∙ partly fuel c b (room i) (length b) s i' less in
      rw eq (
        filled [] c (room i) q s i' (ap (◌∷◌ c) (sym held)) e refl less
          (given ∙ ap (λ (m : ℕ). sent i ++ take m b) n) (omega arith))

  whole_lem :
      (fuel : ℕ) (c c2 : PcmChunk) (cs : List PcmChunk) (q : Q) (s : PlayerState Q M) (i : I)
      → IsQueue queue items
      → IsI2s i2s sent room runs
      → s.queue ≡ some q
      → items q ≡ c2 ∷ cs
      → IsPlain c
      → length (payload_of c) ≤ room i
      → ((q' : Q) (s' : PlayerState Q M) (i' : I)
          → s'.queue ≡ some q'
          → items q' ≡ cs
          → room i' ≡ room i - length (payload_of c)
          → Filled (c2 ∷ cs) s' i' (preload queue i2s (suc fuel) (some c2) s' i'))
      → Filled (c ∷ c2 ∷ cs) s i (preload queue i2s (suc (suc fuel)) (some c) s i)
  unfolding free_pcm_chunk
  whole_lem fuel c c2 cs q s i law dma e held p fits ih =
      let b = payload_of c in
      let (i', done, given, left) = dma.preloaded b i in
      let n : min (length b) (room i) ≡ length b = omega (arith, fits) in
      let (q', got, rest) =
        received_some items c2 cs (queue.receive q) (rw held at (law.received q)) in
      let s' = record (free_pcm_chunk c s) { queue = some q' } in
      let eq =
        plain_first (suc fuel) c s i p
        ∙ ap (λ r. preload_on queue i2s (again (suc fuel)) c b (length b) [] s r) done
        ∙ ap (λ (m : ℕ). preload_on queue i2s (again (suc fuel)) c b (length b) [] s (m, i')) n
        ∙ wholly (suc fuel) c b (length b) s i'
        ∙ receive_lem fuel c2 q' (free_pcm_chunk c s) i' q e got in
      let all = take_all b (length b) (omega arith) in
      rw eq (
        also_gone c c2 cs q' s i i' (preload queue i2s (suc fuel) (some c2) s' i') fits left
          (given ∙ ap (λ (m : ℕ). sent i ++ take m b) n ∙ ap (λ (xs : List ℕ). sent i ++ xs) all)
          (ih q' s' i' refl rest left))

  -- The DMA buffers are filled with the bytes of the chunks in their order, the one that the task has and those of
  -- the queue, if these have more bytes than there is room for: the loop ends within one round for each chunk, the
  -- chunks that were given to the driver whole are freed, and no byte of the one at hand or of the queue is lost.
  -- Each chunk has one fragment, with its memory.
  pub preload-Filled :
      (fuel : ℕ) (c : PcmChunk) (cs : List PcmChunk) (q : Q) (s : PlayerState Q M) (i : I)
      → IsQueue queue items
      → IsI2s i2s sent room runs
      → s.queue ≡ some q
      → items q ≡ cs
      → IsPlain c
      → All IsPlain cs
      → room i < length (bytes_of (c ∷ cs))
      → length cs < fuel
      → Filled (c ∷ cs) s i (preload queue i2s fuel (some c) s i)
  preload-Filled zero c cs q s i law dma e held p ps more enough = absurd (omega (arith, enough))
  preload-Filled (suc fuel) c [] q s i law dma e held p ps more enough =
      part_lem fuel c [] q s i dma e held p (omega (arith, more, length-append (payload_of c) []))
  preload-Filled (suc zero) c (c2 ∷ cs) q s i law dma e held p ps more enough =
      absurd (omega (arith, enough))
  preload-Filled (suc (suc fuel)) c (c2 ∷ cs) q s i law dma e held p (p2, ps) more enough =
      elim (Bool-cases (ltb (room i) (length (payload_of c)))) [
        | inl part ↦
            part_lem (suc fuel) c (c2 ∷ cs) q s i dma e held p
              (ltb→lt (room i) (length (payload_of c)) part)
        | inr whole ↦
            let fits : length (payload_of c) ≤ room i = ground arith in
            whole_lem fuel c c2 cs q s i law dma e held p fits (λ q' s' i' e' held' left.
              preload-Filled (suc fuel) c2 cs q' s' i' law dma e' held' p2 ps
                (omega (arith, more, left, fits, length-append (payload_of c) (bytes_of (c2 ∷ cs))))
                (omega (arith, enough)))
      ]

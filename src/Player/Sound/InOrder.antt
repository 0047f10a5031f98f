-- ===== src/Player/Sound/InOrder.antt =====
-- The driver gets the chunks of components/lightsnapcast/player.c whole and in their order when the sound begins.
use snapclient.Base.{
  ℕ, suc, ◌+◌, ◌-◌, ◌%◌, ◌≤◌, ◌<◌, ◌≡◌, refl, ap, sym, ◌∙◌, arith, List, [], ◌∷◌, ◌++◌, length,
  take, length-append, take-append-drop, none, some, Bool, true, false, ◌==◌, ◌||◌, All,
}
use mathlib.Core.Path.{subst}
use mathlib.Core.List.{append_assoc, append-nil}
use native.Mathlib.Nat.{mod-add-mod, zero-add}
use snapclient.Base.Int.{ℤ, pos}
use snapclient.Rtos.{Queue, IsQueue}
use snapclient.Player.Memory.{PcmChunk}
use snapclient.Player.Chunks.{PlayerState, free_pcm_chunk}
use snapclient.Player.Chunks.Drained.{free_all}
use snapclient.Player.Clock.{MedianFilter}
use snapclient.Player.Playback.{I2s, IsI2s, played, Place, frames_to_bytes}
use snapclient.Player.Playback.Heard.{heard, write_chunk-Wrote}
use snapclient.Player.Preload.{Loaded, preload}
use snapclient.Player.Preload.Filled.{Filled, filled, payload_of, bytes_of, IsPlain, preload-Filled}
use snapclient.Player.Silence.{play_chunk}
use snapclient.Player.Steer.{Tuning, insertion, apll, Playing, start_line}
use snapclient.Player.Sound.{
  Started, started, rounded, armed, sounding, after_play, write_held, start_sound, chunk_done,
  has_payload, begun,
}

-- Each payload consists of whole frames.
abbrev pub IsWhole : ℕ → PcmChunk → Type 0
IsWhole n c = length (payload_of c) % n ≡ 0

bytes_of-append : (xs ys : List PcmChunk) → bytes_of (xs ++ ys) ≡ bytes_of xs ++ bytes_of ys
bytes_of-append [] ys = refl
bytes_of-append (x ∷ xs) ys =
    ap (λ (b : List ℕ). payload_of x ++ b) (bytes_of-append xs ys)
    ∙ sym (append_assoc (payload_of x) (bytes_of xs) (bytes_of ys))

All-left :
    (n : ℕ) (xs ys : List PcmChunk)
    → All (IsWhole n) (xs ++ ys)
    → All (IsWhole n) xs × All (IsWhole n) ys
All-left n [] ys h = (tt, h)
All-left n (x ∷ xs) ys (w, h) = let (a, b) = All-left n xs ys h in ((w, a), b)

plus_whole : (a b n : ℕ) → a % n ≡ 0 → (a + b) % n ≡ b % n
plus_whole a b n h =
    sym (mod-add-mod a n b) ∙ ap (λ (m : ℕ). (m + b) % n) h ∙ ap (λ (m : ℕ). m % n) (zero-add b)

sum_whole : (a b n : ℕ) → a % n ≡ 0 → b % n ≡ 0 → (a + b) % n ≡ 0
sum_whole a b n h k = plus_whole a b n h ∙ k

rest_whole : (a b c n : ℕ) → a + b ≡ c → a % n ≡ 0 → c % n ≡ 0 → b % n ≡ 0
rest_whole a b c n e h k = sym (plus_whole a b n h) ∙ ap (λ (m : ℕ). m % n) e ∙ k

one_frame : (m n : ℕ) → 0 < n → m % n ≡ 0 → 0 < m → n ≤ m
one_frame m n p h k = grind arith

bytes_of-whole :
    (n : ℕ) (xs : List PcmChunk) → 0 < n → All (IsWhole n) xs → length (bytes_of xs) % n ≡ 0
bytes_of-whole n [] p h = grind arith
bytes_of-whole n (x ∷ xs) p (w, h) =
    ap (λ (m : ℕ). m % n) (length-append (payload_of x) (bytes_of xs))
    ∙ sum_whole (length (payload_of x)) (length (bytes_of xs)) n w (bytes_of-whole n xs p h)

module _ {Q M : Type 0} where
  free_all-last :
      (cs : List PcmChunk) (c : PcmChunk) (s : PlayerState Q M)
      → (free_all (cs ++ c ∷ []) s).freed ≡ c ∷ (free_all cs s).freed
  unfolding free_all free_pcm_chunk
  free_all-last [] c s = refl
  free_all-last (x ∷ xs) c s = free_all-last xs c (free_pcm_chunk x s)

module _ {Q M I F : Type 0} (queue : Queue PcmChunk Q) (items : Q → List PcmChunk) (i2s : I2s I)
    (sent : I → List ℕ) (room : I → ℕ) (runs : I → Bool) (median : MedianFilter F)
    (enable : I → I) where
  -- The sound has begun, and the round that writes what is left of the chunk at hand ends: until then the driver got
  -- the bytes of `gone`, which are the first chunks, whole, then those of the chunk at hand, with a frame of `n` bytes
  -- twice or left out at its end by the direction `dir`, and just these chunks were freed.
  pub data Begins (fuel n : ℕ) (dir : ℤ) (old : List PcmChunk) (player : PlayerState Q M) (i : I)
      : Started Q M I F → Type 0 where
    begins :
        (gone : List PcmChunk) (place : Place) (c : PcmChunk) (q : Q) (s1 s2 : Playing Q M I F)
        → old ≡ gone ++ c ∷ items q
        → write_held i2s fuel place c s1 ≡ rounded s2
        → s2.player.queue ≡ some q
        → s2.player.freed ≡ (free_all (gone ++ c ∷ []) player).freed
        → s2.held ≡ none
        → sent s2.line.channel
          ≡ sent i
            ++ (bytes_of gone
                ++ (take place.at (payload_of c) ++ heard n dir (payload_of c) place.at))
        → (dir ≡ pos 0 → sent s2.line.channel ≡ sent i ++ bytes_of (gone ++ c ∷ []))
        → Begins fuel n dir old player i (started place c s1)

  -- What is left of the chunk is written.
  write_lem :
      (fuel : ℕ) (payload : List ℕ) (at : ℕ) (c : PcmChunk) (s : Playing Q M I F)
      → IsI2s i2s sent room runs
      → runs s.line.channel ≡ true
      → (frames_to_bytes s.task.own == 0 || s.task.own.sr == 0) ≡ false
      → 0 < frames_to_bytes s.task.own
      → at < length payload
      → (length payload - at) % frames_to_bytes s.task.own ≡ 0
      → (s2 : Playing Q M I F) × (write_held i2s
            (suc fuel)
            (record { payload = some payload; at = at; size = length payload - at; later = [] })
            c
            s
          ≡ rounded s2)
        × (s2.player ≡ free_pcm_chunk c s.player)
        × (s2.held ≡ none)
        × (sent s2.line.channel
            ≡ sent s.line.channel
              ++ heard (frames_to_bytes s.task.own) s.line.dir_insert_sample payload at)
  unfolding write_held play_chunk
  write_lem fuel payload at c s dma r ready p inside w =
      let n = frames_to_bytes s.task.own in
      let frame = one_frame (length payload - at) n p w (omega (arith, inside)) in
      let (l', e, wrote, d) =
        write_chunk-Wrote i2s sent room runs s.task.own (suc fuel) payload at [] s.line dma r p
          (omega (arith, frame, inside)) w tt (omega arith) in
      let some_left : (length payload - at == 0) ≡ false = ground (arith, inside) in
      let place : Place = record {
        payload = some payload;
        at = at;
        size = length payload - at;
        later = [];
      } in
      let paid : has_payload place c ≡ true = rw (some_left, has_payload) refl in
      let plays : play_chunk i2s (suc fuel) s.task.own place c s.line ≡ played l' =
        rw (some_left, ready) e in
      let all = append-nil (heard n s.line.dir_insert_sample payload at) in
      (
        chunk_done true c s l',
        ap (λ r'. after_play (has_payload place c) c s r') plays
            ∙ ap (λ (b : Bool). after_play b c s (played l')) paid,
        refl,
        refl,
        wrote.given ∙ ap (λ (xs : List ℕ). sent s.line.channel ++ xs) all,
      )

  begins_lem :
      (fuel : ℕ) (now : ℤ) (first : PcmChunk) (cs : List PcmChunk) (player : PlayerState Q M)
      (i : I) (s : Playing Q M I F) (r : Loaded Q M I)
      → IsI2s i2s sent room runs
      → ((j : I) → (sent (enable j) ≡ sent j) × (runs (enable j) ≡ true))
      → (frames_to_bytes s.task.own == 0 || s.task.own.sr == 0) ≡ false
      → 0 < frames_to_bytes s.task.own
      → room i % frames_to_bytes s.task.own ≡ 0
      → All (IsWhole (frames_to_bytes s.task.own)) cs
      → Filled queue items i2s sent room runs cs player i r
      → Begins
          (suc fuel)
          (frames_to_bytes s.task.own)
          s.line.dir_insert_sample
          cs
          player
          i
          (sounding enable now first s r)
  unfolding start_line free_pcm_chunk
  begins_lem fuel now first cs player i s r dma on ready p whole_room whole
        (filled gone c at q s' i' old has freed part given used) =
      let n = frames_to_bytes s.task.own in
      let b = payload_of c in
      let (w, (wc, wq)) =
        All-left n gone (c ∷ items q)
          (subst (λ (xs : List PcmChunk). All (IsWhole n) xs) old whole) in
      let at_whole =
        rest_whole (length (bytes_of gone)) at (room i) n used (bytes_of-whole n gone p w)
          whole_room in
      let left_whole =
        rest_whole at (length b - at) (length b) n (omega (arith, part)) at_whole wc in
      let (same, running) = on i' in
      let s1 = begun enable now first c s' i' s in
      let (s2, e, player', none_held, wrote) =
        write_lem fuel b at c s1 dma running ready p part left_whole in
      let dir = s.line.dir_insert_sample in
      let all =
        wrote
        ∙ ap (λ (xs : List ℕ). xs ++ heard n dir b at) (same ∙ given)
        ∙ append_assoc (sent i) (bytes_of gone ++ take at b) (heard n dir b at)
        ∙ ap (λ (xs : List ℕ). sent i ++ xs)
            (append_assoc (bytes_of gone) (take at b) (heard n dir b at)) in
      begins gone (record { payload = some b; at = at; size = length b - at; later = [] }) c q s1 s2
        old e (ap (λ (x : PlayerState Q M). x.queue) player' ∙ has)
        (ap (λ (x : PlayerState Q M). x.freed) player'
          ∙ ap (λ (xs : List PcmChunk). c ∷ xs) freed
          ∙ sym (free_all-last gone c player))
        none_held all
        (λ straight.
          all
          ∙ ap (λ (d : ℤ). sent i ++ (bytes_of gone ++ (take at b ++ heard n d b at))) straight
          ∙ ap (λ (xs : List ℕ). sent i ++ xs)
              (ap (λ (xs : List ℕ). bytes_of gone ++ xs)
                  (take-append-drop at b ∙ sym (append-nil b))
                ∙ sym (bytes_of-append gone (c ∷ []))))

  armed_lem :
      (tuning : Tuning) (fuel wait : ℕ) (now : ℤ) (first : PcmChunk) (cs : List PcmChunk)
      (s : Playing Q M I F) (r : Loaded Q M I)
      → IsI2s i2s sent room runs
      → ((j : I) → (sent (enable j) ≡ sent j) × (runs (enable j) ≡ true))
      → (frames_to_bytes s.task.own == 0 || s.task.own.sr == 0) ≡ false
      → 0 < frames_to_bytes s.task.own
      → room s.line.channel % frames_to_bytes s.task.own ≡ 0
      → All (IsWhole (frames_to_bytes s.task.own)) cs
      → Filled queue items i2s sent room runs cs s.player s.line.channel r
      → Begins
          (suc fuel)
          (frames_to_bytes s.task.own)
          s.line.dir_insert_sample
          cs
          s.player
          s.line.channel
          (sounding enable now first (armed median tuning wait s) r)
  armed_lem insertion fuel wait now first cs s r dma on ready p whole_room whole f =
      begins_lem fuel now first cs s.player s.line.channel (armed median insertion wait s) r dma on
        ready p whole_room whole f
  armed_lem (apll k) fuel wait now first cs s r dma on ready p whole_room whole f =
      begins_lem fuel now first cs s.player s.line.channel (armed median (apll k) wait s) r dma on
        ready p whole_room whole f

  -- When a chunk that is early starts the sound: the chunks that fill the DMA buffers, and what the next round writes
  -- of the chunk at hand, are given to the driver in their order, and just these chunks are freed. No byte is missing or twice, unless the steering has left the insertion or omission of a frame pending
  -- from before: then the last frame of the chunk at hand is twice or missing, and nothing else. The task's
  -- queue has more bytes than the buffers take, each chunk has one fragment with its memory, the chunks and the
  -- buffers hold whole frames, a frame has a byte at least, the sample rate is above 0, and `enable` leaves the channel
  -- enabled and what the driver was given as it is.
  pub start_sound-Begins :
      (tuning : Tuning) (fuel wait : ℕ) (now : ℤ) (c : PcmChunk) (q : Q) (s : Playing Q M I F)
      → IsQueue queue items
      → IsI2s i2s sent room runs
      → ((j : I) → (sent (enable j) ≡ sent j) × (runs (enable j) ≡ true))
      → s.player.queue ≡ some q
      → All IsPlain (c ∷ items q)
      → All (IsWhole (frames_to_bytes s.task.own)) (c ∷ items q)
      → room s.line.channel % frames_to_bytes s.task.own ≡ 0
      → room s.line.channel < length (bytes_of (c ∷ items q))
      → 0 < frames_to_bytes s.task.own
      → 0 < s.task.own.sr
      → length (items q) < suc fuel
      → Begins
          (suc fuel)
          (frames_to_bytes s.task.own)
          s.line.dir_insert_sample
          (c ∷ items q)
          s.player
          s.line.channel
          (start_sound queue i2s median (suc fuel) tuning enable wait now c s)
  unfolding start_sound
  start_sound-Begins tuning fuel wait now c q s law dma on e (plain, plains) whole whole_room more p
        rate enough =
      let ready : (frames_to_bytes s.task.own == 0 || s.task.own.sr == 0) ≡ false = ground arith in
      armed_lem tuning fuel wait now c (c ∷ items q) s
        (preload queue i2s (suc fuel) (some c) s.player s.line.channel) dma on ready p whole_room
        whole
        (preload-Filled queue items i2s sent room runs (suc fuel) c (items q) q s.player
          s.line.channel law dma e refl plain plains more enough)

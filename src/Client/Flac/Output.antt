-- ===== src/Client/Flac/Output.antt =====
-- The samples that the FLAC decoder writes in main/main.c.
use snapclient.Base.{
  ℕ, zero, suc, ◌+◌, ◌*◌, ◌/◌, ◌%◌, ◌^◌, ◌≤◌, ◌<◌, ◌==◌, ◌≡◌, refl, ap, sym, ◌∙◌, List, [], ◌∷◌,
  ◌++◌, Option, none, some, true, Bool-cases, leb, inl, inr, length, drop, set, get_or, get_or-drop,
  drop-suc, length-append, length-set, arith,
}
use snapclient.Base.Bytes.{le_bytes}
use mathlib.Core.List.{append_assoc}
use snapclient.Parser.Chunk.{DecoderData}
use snapclient.Player.Settings.{SnapcastSetting}
use snapclient.Client.Flac.{
  FlacState, FrameHeader, block_of, count_cached, grow, overflow, store_frame, store_frames,
  store_grown, write_callback, write_channels, written,
}

-- The samples of two channels, in frames of two words of 16 bits.
unfoldable pub interleave : List ℕ → List ℕ → List ℕ
interleave [] right = []
interleave (l ∷ ls) [] = []
interleave (l ∷ ls) (r ∷ rs) = le_bytes 2 l ++ (le_bytes 2 r ++ interleave ls rs)

set-behind :
    (xs ys : List ℕ) (x v : ℕ) (i : ℕ) → i ≡ length xs → set (xs ++ x ∷ ys) i v ≡ xs ++ v ∷ ys
set-behind [] ys x v zero e = refl
set-behind [] ys x v (suc i) e = absurd (omega (arith, e))
set-behind (a ∷ xs) ys x v zero e = absurd (omega (arith, e))
set-behind (a ∷ xs) ys x v (suc i) e = ap (◌∷◌ a) (set-behind xs ys x v i (omega (arith, e)))

-- A frame behind `xs`.
store_frame-behind :
    (xs ys : List ℕ) (a b c d i l r : ℕ)
    → i ≡ length xs
    → store_frame (xs ++ a ∷ b ∷ c ∷ d ∷ ys) i l r
      ≡ xs ++ ((l % 256) ∷ (l / 256 % 256) ∷ (r % 256) ∷ (r / 256 % 256) ∷ ys)
store_frame-behind [] ys a b c d zero l r e = refl
store_frame-behind [] ys a b c d (suc i) l r e = absurd (omega (arith, e))
store_frame-behind (x ∷ xs) ys a b c d zero l r e = absurd (omega (arith, e))
store_frame-behind (x ∷ xs) ys a b c d (suc i) l r e =
    let k1 : suc i + 1 ≡ suc (i + 1) = omega arith in
    let k2 : suc i + 2 ≡ suc (i + 2) = omega arith in
    let k3 : suc i + 3 ≡ suc (i + 3) = omega arith in
    rw (k1, k2, k3) (ap (◌∷◌ x) (store_frame-behind xs ys a b c d i l r (omega (arith, e))))

-- `n` frames, where there are four bytes for each.
store_frames-interleave :
    (ls rs left right pre junk : List ℕ) (i start : ℕ)
    → drop i left ≡ ls
    → drop i right ≡ rs
    → length ls ≡ length rs
    → length pre ≡ start + 4 * i
    → length junk ≡ 4 * length ls
    → store_frames (length ls) i left right (pre ++ junk) start ≡ some (pre ++ interleave ls rs)
unfolding store_frames interleave
store_frames-interleave [] rs left right pre [] i start dl dr same at room = refl
store_frames-interleave [] rs left right pre (a ∷ junk) i start dl dr same at room =
    absurd (omega (arith, room))
store_frames-interleave (l ∷ ls) [] left right pre junk i start dl dr same at room =
    absurd (omega (arith, same))
store_frames-interleave (l ∷ ls) (r ∷ rs) left right pre (a ∷ b ∷ c ∷ d ∷ junk) i start dl dr same
      at room =
    let four = (l % 256) ∷ (l / 256 % 256) ∷ (r % 256) ∷ (r / 256 % 256) ∷ [] in
    let fits : leb (start + 4 * i + 4) (length (pre ++ a ∷ b ∷ c ∷ d ∷ junk)) ≡ true =
      ground (arith, at, length-append pre (a ∷ b ∷ c ∷ d ∷ junk)) in
    let e = store_frame-behind pre junk a b c d (start + 4 * i) l r (sym at) in
    let j : i + 1 ≡ suc i = omega arith in
    let ih =
      store_frames-interleave ls rs left right (pre ++ four) junk (suc i) start (drop-suc left i dl)
        (drop-suc right i dr) (omega (arith, same)) (omega (arith, at, length-append pre four))
        (omega (arith, room)) in
    rw (fits, get_or-drop left i 0 dl, get_or-drop right i 0 dr, e, j)
      (ap (λ x. store_frames (length ls) (suc i) left right x start)
          (sym (append_assoc pre four junk))
        ∙ ih
        ∙ ap some (append_assoc pre four (interleave ls rs)))
store_frames-interleave (l ∷ ls) (r ∷ rs) left right pre junk i start dl dr same at room =
    absurd (omega (arith, room))

length-store_frame : (block : List ℕ) (i l r : ℕ) → length (store_frame block i l r) ≡ length block
length-store_frame block i l r =
    let b1 = set block i (l % 256) in
    let b2 = set b1 (i + 1) (l / 2 ^ 8 % 256) in
    let b3 = set b2 (i + 2) (r % 256) in
    length-set {0} b3 (i + 3) (r / 2 ^ 8 % 256)
    ∙ length-set {0} b2 (i + 2) (r % 256)
    ∙ length-set {0} b1 (i + 1) (l / 2 ^ 8 % 256)
    ∙ length-set {0} block i (l % 256)

-- Memory with less than four bytes for each frame.
store_frames-overflows :
    (n i : ℕ) (left right block : List ℕ) (start : ℕ)
    → 0 < n
    → length block < start + 4 * (i + n)
    → store_frames n i left right block start ≡ none
unfolding store_frames
store_frames-overflows zero i left right block start h k = absurd (omega (arith, h))
store_frames-overflows (suc n) i left right block start h k =
    let l = get_or left i 0 in
    let r = get_or right i 0 in
    elim (Bool-cases (leb (start + 4 * i + 4) (length block))) [
      | inr out ↦ rw out refl
      | inl fits ↦
          let far : start + 4 * i + 4 ≤ length block = ground (arith, fits) in
          rw fits (
            store_frames-overflows n (i + 1) left right (store_frame block (start + 4 * i) l r)
              start (omega (arith, far, k))
              (omega (arith, k, length-store_frame block (start + 4 * i) l r)))
    ]

size_of :
    (header : FrameHeader) (n : ℕ)
    → header.blocksize ≡ n
    → (channels bits : ℕ) → header.channels ≡ channels
    → header.bits_per_sample ≡ bits
    → header.blocksize * header.channels * header.bits_per_sample / 8 ≡ n * channels * bits / 8
size_of header n e channels bits c b =
    ap (λ k. k * header.channels * header.bits_per_sample / 8) e
    ∙ ap (λ k. n * k * header.bits_per_sample / 8) c
    ∙ ap (λ k. n * channels * k / 8) b

module _ {H : Type 0} (realloc : ℕ → List ℕ → H → Option (List ℕ) × H) where
  store_grown-Stereo :
      (header : FrameHeader) (left right old junk : List ℕ) (s : FlacState) (h : H)
      → header.blocksize ≡ length left
      → length left ≡ length right
      → s.pcm_chunk.bytes ≡ length old
      → length junk ≡ 4 * length left
      → store_grown realloc (4 * length left) header left right s (some (old ++ junk), h)
        ≡ written realloc
            (4 * length left)
            header
            s.pcm_chunk
            (some (old ++ interleave left right))
            s
            h
  store_grown-Stereo header left right old junk s h n same held room =
      let k =
        store_frames-interleave left right left right old junk 0 (length old) refl refl same
          (omega arith) room in
      let go =
        λ (o : Option (List ℕ)). written realloc (4 * length left) header s.pcm_chunk o s h in
      ap (λ m. go (store_frames m 0 left right (old ++ junk) s.pcm_chunk.bytes)) n
      ∙ ap (λ m. go (store_frames (length left) 0 left right (old ++ junk) m)) held
      ∙ ap go k

  abbrev Stereo : FrameHeader → SnapcastSetting → Type 0
  Stereo header setting =
      (header.channels ≡ 2) × (header.bits_per_sample ≡ 16) × (setting.ch ≡ 2) × (setting.bits ≡ 16)

  write_channels-grown :
      (fuel bytes : ℕ) (header : FrameHeader) (left right old : List ℕ) (s : FlacState) (h : H)
      → header.blocksize * header.channels * header.bits_per_sample / 8 ≡ bytes
      → block_of s.pcm_chunk.out_data ≡ old
      → s.pcm_chunk.bytes ≡ length old
      → write_channels realloc fuel header (some left) (some right) s h
        ≡ store_grown realloc bytes header left right s
            (grow realloc fuel (length old + bytes) old h)
  write_channels-grown fuel bytes header left right old s h size had held =
      let go = λ (m : ℕ) (r : Option (List ℕ) × H). store_grown realloc m header left right s r in
      ap (λ m. go m (grow realloc fuel (s.pcm_chunk.bytes + m) (block_of s.pcm_chunk.out_data) h))
        size
      ∙ ap (λ m. go bytes (grow realloc fuel (m + bytes) (block_of s.pcm_chunk.out_data) h)) held
      ∙ ap (λ x. go bytes (grow realloc fuel (length old + bytes) x h)) had

  count_cached-pcm_chunk :
      (header : FrameHeader) (s : FlacState)
      → (count_cached realloc header s).pcm_chunk ≡ s.pcm_chunk
  count_cached-pcm_chunk header s = elim (Bool-cases s.is_cached) [
    | inl cached ↦ rw cached refl
    | inr fresh ↦ rw fresh refl
  ]

  -- A frame that has the stream's format.
  write_callback-grown :
      (fuel bytes : ℕ) (header : FrameHeader) (left right old : List ℕ) (s : FlacState) (h : H)
      → header.channels ≡ s.setting.ch
      → header.bits_per_sample ≡ s.setting.bits
      → header.blocksize * header.channels * header.bits_per_sample / 8 ≡ bytes
      → block_of s.pcm_chunk.out_data ≡ old
      → s.pcm_chunk.bytes ≡ length old
      → write_callback realloc fuel header (some left) (some right) s h
        ≡ store_grown realloc bytes header left right
            (count_cached realloc header s)
            (grow realloc fuel (length old + bytes) old h)
  unfolding write_callback
  write_callback-grown fuel bytes header left right old s h c b size had held =
      let x : (header.channels == s.setting.ch) ≡ true = ground (arith, c) in
      let y : (header.bits_per_sample == s.setting.bits) ≡ true = ground (arith, b) in
      let keeps = count_cached-pcm_chunk header s in
      rw (x, y)
        (write_channels-grown fuel bytes header left right old (count_cached realloc header s) h
          size (ap (λ (d : DecoderData). block_of d.out_data) keeps ∙ had)
          (ap (λ (d : DecoderData). d.bytes) keeps ∙ held))

  -- The samples of two channels with 16 bits go behind those of the frames before, as words with the low byte
  -- first, the left one before the right one, once there is memory that keeps what it had.
  pub write_callback_lem :
      (fuel : ℕ) (header : FrameHeader) (left right old junk : List ℕ) (s : FlacState) (h h' : H)
      → Stereo header s.setting
      → header.blocksize ≡ length left
      → length left ≡ length right
      → block_of s.pcm_chunk.out_data ≡ old
      → s.pcm_chunk.bytes ≡ length old
      → length junk ≡ 4 * length left
      → grow realloc fuel (length old + 4 * length left) old h ≡ (some (old ++ junk), h')
      → write_callback realloc fuel header (some left) (some right) s h
        ≡ written realloc
            (4 * length left)
            header
            s.pcm_chunk
            (some (old ++ interleave left right))
            (count_cached realloc header s)
            h'
  write_callback_lem fuel header left right old junk s h h' (c, b, ch, bits) n same had held room
        got =
      let t = count_cached realloc header s in
      let keeps = count_cached-pcm_chunk header s in
      let four : header.blocksize * header.channels * header.bits_per_sample / 8 ≡ 4 * length left =
        size_of header (length left) n 2 16 c b ∙ omega arith in
      write_callback-grown fuel (4 * length left) header left right old s h (c ∙ sym ch)
        (b ∙ sym bits) four had held
      ∙ ap (store_grown realloc (4 * length left) header left right t) got
      ∙ store_grown-Stereo header left right old junk t h' n same
          (ap (λ (d : DecoderData). d.bytes) keeps ∙ held) room
      ∙ ap
          (λ d.
            written realloc (4 * length left) header d (some (old ++ interleave left right)) t h')
          keeps

  -- With two channels of 8 bits there is memory for half of what is written: each frame that is not empty is
  -- written outside of it.
  pub write_callback-overflows :
      (fuel : ℕ) (header : FrameHeader) (left right old block : List ℕ) (s : FlacState) (h h' : H)
      → (header.channels ≡ 2) × (header.bits_per_sample ≡ 8)
      → (s.setting.ch ≡ 2) × (s.setting.bits ≡ 8)
      → 0 < header.blocksize
      → block_of s.pcm_chunk.out_data ≡ old
      → s.pcm_chunk.bytes ≡ length old
      → length block ≡ length old + 2 * header.blocksize
      → grow realloc fuel (length old + 2 * header.blocksize) old h ≡ (some block, h')
      → write_callback realloc fuel header (some left) (some right) s h ≡ overflow
  write_callback-overflows fuel header left right old block s h h' (c, b) (ch, bits) some_frames had
        held room got =
      let t = count_cached realloc header s in
      let keeps = count_cached-pcm_chunk header s in
      let two : header.blocksize * header.channels * header.bits_per_sample / 8
          ≡ 2 * header.blocksize =
        size_of header header.blocksize refl 2 8 c b ∙ omega arith in
      let go =
        λ (o : Option (List ℕ)). written realloc (2 * header.blocksize) header t.pcm_chunk o t h' in
      write_callback-grown fuel (2 * header.blocksize) header left right old s h (c ∙ sym ch)
        (b ∙ sym bits) two had held
      ∙ ap (store_grown realloc (2 * header.blocksize) header left right t) got
      ∙ ap (λ m. go (store_frames header.blocksize 0 left right block m))
          (ap (λ (d : DecoderData). d.bytes) keeps ∙ held)
      ∙ ap go (
          store_frames-overflows header.blocksize 0 left right block (length old) some_frames
            (omega (arith, room, some_frames)))

-- ===== src/Player/Playback/Heard.antt =====
-- What the write loop of components/lightsnapcast/player.c gives to the I2S channel.
use snapclient.Base.{
  ℕ, zero, suc, ◌+◌, ◌-◌, ◌*◌, ◌/◌, ◌%◌, ◌≤◌, ◌<◌, ◌≡◌, refl, ap, sym, ◌∙◌, arith, List, [], ◌∷◌,
  ◌++◌, length, length-append, length-drop, length-take, take, drop, some, Bool, true, false, ltb,
  leb, ◌==◌, take_all, if◌then◌else◌, Bool-cases, inl, inr,
}
use mathlib.Core.Path.{subst}
use mathlib.Core.List.{append_assoc, append-nil}
use snapclient.Base.Int.{ℤ, pos, negsuc, ltb_ℤ}
use snapclient.Player.Memory.{Fragment}
use snapclient.Player.Settings.{SnapcastSetting}
use snapclient.Player.Playback.{
  I2s, IsI2s, Line, Played, played, frames_to_bytes, advance, leave_out, written_to, write_again,
  next_fragment, next_part, write_part, write_chunk,
}

-- The fragments of the payloads, and the bytes of them all.
abbrev pub fragments_of : List (List ℕ) → List Fragment
fragments_of [] = []
fragments_of (b ∷ bs) = record { size = length b; payload = some b } ∷ fragments_of bs

abbrev pub joined : List (List ℕ) → List ℕ
joined [] = []
joined (b ∷ bs) = b ++ joined bs

-- Each payload is a number of whole frames of `n` bytes.
abbrev pub AllWhole : ℕ → List (List ℕ) → Type 0
AllWhole n [] = Unit {0}
AllWhole n (b ∷ bs) = (length b % n ≡ 0) × AllWhole n bs

whole_quotient : (n s : ℕ) → 0 < s → n % s ≡ 0 → n / s * s ≡ n
whole_quotient n s p e = grind arith

quotient_sum : (a n s : ℕ) → 0 < s → n % s ≡ 0 → (a + n / s) * s ≡ a * s + n
quotient_sum a n s p e = grind (arith, whole_quotient n s p e)

-- What is heard of a payload from `at` on, for a direction of `dir_insert_sample` and frames of `n` bytes: where the
-- sound is late the last frame is left out, and where it is early it is heard twice.
abbrev pub heard : ℕ → ℤ → List ℕ → ℕ → List ℕ
heard n dir payload at =
    let rest = drop at payload in
    if ltb_ℤ (pos 0) dir
    then take (length rest - n) rest
    else if ltb_ℤ dir (pos 0)
    then rest ++ drop (length payload - n) payload
    else rest

neither : (d : ℤ) → ltb_ℤ (pos 0) d ≡ false → ltb_ℤ d (pos 0) ≡ false → d ≡ pos 0
neither (pos zero) h k = refl
neither (pos (suc n)) h k = ground arith
neither (negsuc n) h k = ground arith

module _ {I : Type 0} (i2s : I2s I) (sent : I → List ℕ) (room : I → ℕ) (runs : I → Bool)
    (setting : SnapcastSetting) where
  -- From one line to another the channel was given the bytes, and `samples_written` counts their frames.
  pub record Wrote (l : Line I) (bytes : List ℕ) (l' : Line I) : Type 0 where
    pub still : runs l'.channel ≡ true
    pub given : sent l'.channel ≡ sent l.channel ++ bytes
    pub counted :
        l'.samples_written * frames_to_bytes setting
        ≡ l.samples_written * frames_to_bytes setting + length bytes

  Wrote-append :
      (a b c : Line I) (xs ys : List ℕ) → Wrote a xs b → Wrote b ys c → Wrote a (xs ++ ys) c
  Wrote-append a b c xs ys u v = record {
    still = v.still;
    given = v.given ∙ ap (λ (p : List ℕ). p ++ ys) u.given ∙ append_assoc (sent a.channel) xs ys;
    counted = omega (arith, u.counted, v.counted, length-append xs ys);
  }

  -- A write that succeeds.
  write-Wrote :
      (l : Line I) (bytes : List ℕ)
      → IsI2s i2s sent room runs
      → runs l.channel ≡ true
      → 0 < frames_to_bytes setting
      → length bytes % frames_to_bytes setting ≡ 0
      → (i : I) × (i2s.write bytes l.channel ≡ (true, length bytes, i))
        × ((d : ℤ)
            → Wrote l bytes
                (advance setting (length bytes) (record l { channel = i; dir_insert_sample = d })))
  unfolding advance
  write-Wrote l bytes law r p w =
      let (i, e, s, r') = law.written bytes l.channel r in
      (
        i,
        e,
        λ d. record {
          still = r';
          given = s;
          counted = quotient_sum l.samples_written (length bytes) (frames_to_bytes setting) p w;
        },
      )

  length-part :
      (size at : ℕ) (payload : List ℕ)
      → at + size ≤ length payload
      → length (take size (drop at payload)) ≡ size
  length-part size at payload h =
      omega (arith, length-take size (drop at payload), length-drop at payload)

  abbrev again : ℕ → List ℕ → ℕ → ℕ → List Fragment → Line I → Played I
  again fuel p a z r l = write_chunk i2s fuel setting p a z r l

  next_lem :
      (fuel : ℕ) (payload : List ℕ) (at size : ℕ) (later : List Fragment) (l : Line I)
      → next_part i2s (again fuel) payload at (size - size) later (some l)
        ≡ next_fragment i2s (again fuel) later l
  next_lem fuel payload at size later l =
      let z : (size - size == 0) ≡ true = ground arith in rw z refl

  -- The first write of a round.
  part_lem :
      (fuel : ℕ) (payload : List ℕ) (at size : ℕ) (later : List Fragment) (l : Line I)
      → IsI2s i2s sent room runs
      → runs l.channel ≡ true
      → 0 < frames_to_bytes setting
      → at + size ≤ length payload
      → size % frames_to_bytes setting ≡ 0
      → (l' : Line I) × Wrote l (take size (drop at payload)) l'
        × (l'.dir_insert_sample ≡ l.dir_insert_sample)
        × (write_part i2s (again fuel) setting payload at later (size, l)
            ≡ next_part i2s
                (again fuel)
                payload
                (at + size)
                (size - size)
                later
                (write_again i2s setting payload (at + size) l'))
  unfolding advance
  part_lem fuel payload at size later l law r p inside w =
      let bytes = take size (drop at payload) in
      let e = length-part size at payload inside in
      let w' : length bytes % frames_to_bytes setting ≡ 0 = rw e w in
      let (i, done, wrote) = write-Wrote l bytes law r p w' in
      let l' = advance setting (length bytes) (record l { channel = i }) in
      let next_at : ℕ → Played I = λ n.
        next_part i2s (again fuel) payload (at + n) (size - n) later
          (write_again i2s setting payload (at + n) l') in
      let next_written : Bool × ℕ × I → Played I = λ r'.
        let (n, l1) = written_to setting l r' in
        next_part i2s (again fuel) payload (at + n) (size - n) later
          (write_again i2s setting payload (at + n) l1) in
      (
        advance setting (length bytes) (record l { channel = i }),
        wrote l.dir_insert_sample,
        refl,
        ap (λ r'. next_written r') done ∙ ap (λ (n : ℕ). next_at n) e,
      )

  -- Where the sound is not early, no frame is written again.
  not_again :
      (payload : List ℕ) (at : ℕ) (l : Line I)
      → ltb_ℤ l.dir_insert_sample (pos 0) ≡ false
      → write_again i2s setting payload at l ≡ some l
  unfolding write_again
  not_again payload at l e = rw e refl

  -- Where it is early, the frame in front of `at` is.
  again_lem :
      (payload : List ℕ) (at : ℕ) (l : Line I)
      → IsI2s i2s sent room runs
      → runs l.channel ≡ true
      → 0 < frames_to_bytes setting
      → frames_to_bytes setting ≤ at
      → at ≤ length payload
      → ltb_ℤ l.dir_insert_sample (pos 0) ≡ true
      → (l' : Line I) × (write_again i2s setting payload at l ≡ some l')
        × Wrote l (take (frames_to_bytes setting) (drop (at - frames_to_bytes setting) payload)) l'
        × (l'.dir_insert_sample ≡ pos 0)
  unfolding write_again advance
  again_lem payload at l law r p enough inside e =
      let n = frames_to_bytes setting in
      let bytes = take n (drop (at - n) payload) in
      let k : length bytes ≡ n = length-part n (at - n) payload (omega (arith, inside, enough)) in
      let w : n % n ≡ 0 = grind arith in
      let w' : length bytes % n ≡ 0 = rw k w in
      let (i, done, wrote) = write-Wrote l bytes law r p w' in
      let there : ltb at n ≡ false = ground arith in
      (
        advance setting (length bytes) (record l { channel = i; dir_insert_sample = pos 0 }),
        rw (e, there, done) refl,
        wrote (pos 0),
        refl,
      )

  -- The whole part in a round that writes no frame again.
  plain_part :
      (fuel : ℕ) (payload : List ℕ) (at size : ℕ) (later : List Fragment) (l : Line I)
      → IsI2s i2s sent room runs
      → runs l.channel ≡ true
      → 0 < frames_to_bytes setting
      → at + size ≤ length payload
      → size % frames_to_bytes setting ≡ 0
      → l.dir_insert_sample ≡ pos 0
      → (l' : Line I) × Wrote l (take size (drop at payload)) l'
        × (l'.dir_insert_sample ≡ pos 0)
        × (write_part i2s (again fuel) setting payload at later (size, l)
            ≡ next_fragment i2s (again fuel) later l')
  plain_part fuel payload at size later l law r p inside w none_left =
      let (l', wrote, same, e) = part_lem fuel payload at size later l law r p inside w in
      let d = same ∙ none_left in
      let q : ltb_ℤ l'.dir_insert_sample (pos 0) ≡ false = rw d refl in
      (
        l',
        wrote,
        d,
        e
            ∙ ap (λ o. next_part i2s (again fuel) payload (at + size) (size - size) later o)
                (not_again payload (at + size) l' q)
            ∙ next_lem fuel payload (at + size) size later l',
      )

  nothing_left_out :
      (size : ℕ) (l : Line I) → l.dir_insert_sample ≡ pos 0 → leave_out setting size l ≡ (size, l)
  unfolding leave_out
  nothing_left_out size l e =
      let q : ltb_ℤ (pos 0) l.dir_insert_sample ≡ false = rw e refl in rw q refl

  Wrote-nil : (l : Line I) → runs l.channel ≡ true → Wrote l [] l
  Wrote-nil l r = record {
    still = r;
    given = sym (append-nil (sent l.channel));
    counted = omega arith;
  }

  -- The fragments behind the first one.
  later_lem :
      (fuel : ℕ) (bs : List (List ℕ)) (l : Line I)
      → IsI2s i2s sent room runs
      → runs l.channel ≡ true
      → 0 < frames_to_bytes setting
      → length bs ≤ fuel
      → AllWhole (frames_to_bytes setting) bs
      → l.dir_insert_sample ≡ pos 0
      → (l' : Line I) × (next_fragment i2s (again fuel) (fragments_of bs) l ≡ played l')
        × Wrote l (joined bs) l'
        × (l'.dir_insert_sample ≡ pos 0)
  unfolding write_chunk
  later_lem fuel [] l law r p enough whole none_left = (l, refl, Wrote-nil l r, none_left)
  later_lem zero (b ∷ bs) l law r p enough whole none_left = absurd (omega (arith, enough))
  later_lem (suc fuel) (b ∷ bs) l law r p enough (w, whole) none_left =
      let (l1, wrote, d, e) =
        plain_part fuel b 0 (length b) (fragments_of bs) l law r p (omega arith) w none_left in
      let (l2, e', wrote', d') =
        later_lem fuel bs l1 law wrote.still p (omega (arith, enough)) whole d in
      let first : Wrote l b l1 = rw (take_all b (length b) (omega arith)) at wrote in
      (
        l2,
        ap (λ r'. write_part i2s (again fuel) setting b 0 (fragments_of bs) r')
              (nothing_left_out (length b) l none_left)
            ∙ e
            ∙ e',
        Wrote-append l l1 l2 b (joined bs) first wrote',
        d',
      )

  abbrev size_at : List ℕ → ℕ → ℕ
  size_at payload at = length payload - at

  -- What the first fragment comes to.
  abbrev FirstHeard : ℕ → List ℕ → ℕ → List Fragment → Line I → Type 0
  FirstHeard fuel payload at later l =
      (l' : Line I) × Wrote l (heard (frames_to_bytes setting) l.dir_insert_sample payload at) l'
      × (l'.dir_insert_sample ≡ pos 0)
      × (write_part i2s (again fuel) setting payload at later
            (leave_out setting (size_at payload at) l)
          ≡ next_fragment i2s (again fuel) later l')

  late_lem :
      (fuel : ℕ) (payload : List ℕ) (at : ℕ) (later : List Fragment) (l : Line I)
      → IsI2s i2s sent room runs
      → runs l.channel ≡ true
      → 0 < frames_to_bytes setting
      → at + frames_to_bytes setting ≤ length payload
      → size_at payload at % frames_to_bytes setting ≡ 0
      → ltb_ℤ (pos 0) l.dir_insert_sample ≡ true
      → FirstHeard fuel payload at later l
  unfolding leave_out
  late_lem fuel payload at later l law r p inside w late =
      let n = frames_to_bytes setting in
      let size = size_at payload at in
      let room : leb n size ≡ true = ground arith in
      let w' : (size - n) % n ≡ 0 = grind arith in
      let l1 = record l { dir_insert_sample = pos 0 } in
      let (l', wrote, d, e) =
        plain_part fuel payload at (size - n) later l1 law r p (omega (arith, inside)) w' refl in
      let wrote' : Wrote l (take (size - n) (drop at payload)) l' = record {
        still = wrote.still;
        given = wrote.given;
        counted = wrote.counted;
      } in
      rw (late, room, length-drop at payload) (l', wrote', d, e)

  early_lem :
      (fuel : ℕ) (payload : List ℕ) (at : ℕ) (later : List Fragment) (l : Line I)
      → IsI2s i2s sent room runs
      → runs l.channel ≡ true
      → 0 < frames_to_bytes setting
      → at + frames_to_bytes setting ≤ length payload
      → size_at payload at % frames_to_bytes setting ≡ 0
      → ltb_ℤ (pos 0) l.dir_insert_sample ≡ false
      → ltb_ℤ l.dir_insert_sample (pos 0) ≡ true
      → FirstHeard fuel payload at later l
  unfolding leave_out
  early_lem fuel payload at later l law r p inside w not_late early =
      let n = frames_to_bytes setting in
      let size = size_at payload at in
      let (l1, wrote, same, e) =
        part_lem fuel payload at size later l law r p (omega (arith, inside)) w in
      let q : ltb_ℤ l1.dir_insert_sample (pos 0) ≡ true = rw same early in
      let (l2, e', wrote', d) =
        again_lem payload (at + size) l1 law wrote.still p (omega (arith, inside))
          (omega (arith, inside)) q in
      let end : at + size ≡ length payload = omega (arith, inside) in
      let rest = take_all (drop at payload) size (omega (arith, length-drop at payload)) in
      let last =
        take_all (drop (length payload - n) payload) n
          (omega (arith, inside, length-drop (length payload - n) payload)) in
      let first : Wrote l (drop at payload) l1 = rw rest at wrote in
      let frame : Wrote l1 (drop (length payload - n) payload) l2 =
        subst (λ (xs : List ℕ). Wrote l1 xs l2)
          (ap (λ (m : ℕ). take n (drop (m - n) payload)) end ∙ last) wrote' in
      rw (not_late, early)
        (
          l2,
          Wrote-append l l1 l2 (drop at payload) (drop (length payload - n) payload) first frame,
          d,
          e
              ∙ ap (λ o. next_part i2s (again fuel) payload (at + size) (size - size) later o) e'
              ∙ next_lem fuel payload (at + size) size later l2,
        )

  plain_lem :
      (fuel : ℕ) (payload : List ℕ) (at : ℕ) (later : List Fragment) (l : Line I)
      → IsI2s i2s sent room runs
      → runs l.channel ≡ true
      → 0 < frames_to_bytes setting
      → at + frames_to_bytes setting ≤ length payload
      → size_at payload at % frames_to_bytes setting ≡ 0
      → ltb_ℤ (pos 0) l.dir_insert_sample ≡ false
      → ltb_ℤ l.dir_insert_sample (pos 0) ≡ false
      → FirstHeard fuel payload at later l
  unfolding leave_out
  plain_lem fuel payload at later l law r p inside w not_late not_early =
      let size = size_at payload at in
      let none_left : l.dir_insert_sample ≡ pos 0 =
        neither l.dir_insert_sample not_late not_early in
      let (l1, wrote, d, e) =
        plain_part fuel payload at size later l law r p (omega (arith, inside)) w none_left in
      let rest = take_all (drop at payload) size (omega (arith, length-drop at payload)) in
      let first : Wrote l (drop at payload) l1 = rw rest at wrote in
      rw (not_late, not_early) (l1, first, d, e)

  first_lem :
      (fuel : ℕ) (payload : List ℕ) (at : ℕ) (later : List Fragment) (l : Line I)
      → IsI2s i2s sent room runs
      → runs l.channel ≡ true
      → 0 < frames_to_bytes setting
      → at + frames_to_bytes setting ≤ length payload
      → size_at payload at % frames_to_bytes setting ≡ 0
      → FirstHeard fuel payload at later l
  first_lem fuel payload at later l law r p inside w =
      elim (Bool-cases (ltb_ℤ (pos 0) l.dir_insert_sample)) [
        | inl late ↦ late_lem fuel payload at later l law r p inside w late
        | inr nl ↦ elim (Bool-cases (ltb_ℤ l.dir_insert_sample (pos 0))) [
          | inl early ↦ early_lem fuel payload at later l law r p inside w nl early
          | inr ne ↦ plain_lem fuel payload at later l law r p inside w nl ne
        ]
      ]

  -- The bytes from `p_payload` on are written to an enabled channel in their order, and then those of the fragments
  -- behind: without the last frame of the first fragment if a frame is to be left out, and with it twice if one is
  -- to be inserted, which is done once. The loop ends within one round for each fragment, and `samples_written`
  -- counts the frames of `framesToBytes` bytes that were written. Each payload consists of whole frames, and at least
  -- one is left of the first.
  pub write_chunk-Wrote :
      (fuel : ℕ) (payload : List ℕ) (at : ℕ) (bs : List (List ℕ)) (l : Line I)
      → IsI2s i2s sent room runs
      → runs l.channel ≡ true
      → 0 < frames_to_bytes setting
      → at + frames_to_bytes setting ≤ length payload
      → (length payload - at) % frames_to_bytes setting ≡ 0
      → AllWhole (frames_to_bytes setting) bs
      → length bs < fuel
      → (l' : Line I) × (write_chunk i2s fuel setting payload at
            (length payload - at)
            (fragments_of bs)
            l
          ≡ played l')
        × Wrote l (heard (frames_to_bytes setting) l.dir_insert_sample payload at ++ joined bs) l'
        × (l'.dir_insert_sample ≡ pos 0)
  unfolding write_chunk
  write_chunk-Wrote zero payload at bs l law r p inside w whole enough =
      absurd (omega (arith, enough))
  write_chunk-Wrote (suc fuel) payload at bs l law r p inside w whole enough =
      let (l1, wrote, d, e) = first_lem fuel payload at (fragments_of bs) l law r p inside w in
      let (l2, e', wrote', d') =
        later_lem fuel bs l1 law wrote.still p (omega (arith, enough)) whole d in
      (
        l2,
        e ∙ e',
        Wrote-append l l1 l2 (heard (frames_to_bytes setting) l.dir_insert_sample payload at)
            (joined bs) wrote wrote',
        d',
      )

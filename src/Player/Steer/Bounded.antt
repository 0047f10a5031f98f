-- ===== src/Player/Steer/Bounded.antt =====
-- What the control of the time in components/lightsnapcast/player.c may do to the sound.
use snapclient.Base.{
  ℕ, ◌≡◌, ◌≢◌, refl, arith, ◌∷◌, none, some, Bool, true, false, ◌==◌, ◌&&◌, ◌||◌, Bool-cases, ◌⊎◌,
  inl, inr,
}
use snapclient.Base.Int.{ℤ, pos, negsuc, ◌+ℤ◌, ◌-ℤ◌, ltb_ℤ, int_laws}
use snapclient.Rtos.{Queue}
use snapclient.Player.Memory.{PcmChunk}
use snapclient.Player.Chunks.{free_if_taken, pcm_chunk_queue_msg_waiting}
use snapclient.Player.Clock.{MedianFilter}
use snapclient.Player.Steer.{
  insertion, Playing, error_us, resync_again, is_early, is_late, tune, too_far, steer, judge,
  towards,
}

abbrev pub BelowNeg : ℕ → ℤ → Type 0
BelowNeg n a = ltb_ℤ a (pos 0 -ℤ pos n) ≡ true

abbrev pub Above : ℕ → ℤ → Type 0
Above n a = ltb_ℤ (pos n) a ≡ true

both_true : (a b : Bool) → (a && b) ≡ true → (a ≡ true) × (b ≡ true)
both_true true b e = (refl, e)
both_true false b e = absurd (cc)

either_true : (a b : Bool) → (a || b) ≡ true → (a ≡ true) ⊎ (b ≡ true)
either_true true b e = inl refl
either_true false b e = inr e

second_false : (a b : Bool) → a ≡ true → (a && b) ≡ false → b ≡ false
second_false true b e f = f
second_false false b e f = absurd (cc)

neither_true : (a b : Bool) → (a || b) ≡ false → (a ≡ false) × (b ≡ false)
neither_true true b e = absurd (cc)
neither_true false b e = (refl, e)

module _ {Q M I F : Type 0} (queue : Queue PcmChunk Q) (median : MedianFilter F) where
  -- The task gives the sound up: it has no chunk, the sound is off, and it waits for a new start.
  pub record IsSilent (s s' : Playing Q M I F) : Type 0 where
    pub given_back : s'.player ≡ free_if_taken s.held s.player
    pub no_chunk : s'.held ≡ none
    pub muted : s'.task.mutes ≡ true ∷ s.task.mutes
    pub disabled : s'.task.i2s_enabled ≡ false
    pub unsynced : s'.task.initial_sync ≡ false

  -- The sound goes on: what was changed, by the error and its median.
  pub data Corrected (age short : ℤ) (s : Playing Q M I F) : Playing Q M I F → Type 0 where
    left_alone :
        (s' : Playing Q M I F)
        → s'.line ≡ s.line
        → s'.inserted ≡ s.inserted
        → Corrected age short s s'
    frame_more :
        (s' : Playing Q M I F)
        → BelowNeg 64 age
        → BelowNeg 128 short
        → s'.line ≡ record s.line { dir_insert_sample = negsuc 0 }
        → s'.inserted ≡ s.inserted +ℤ pos 1
        → Corrected age short s s'
    frame_less :
        (s' : Playing Q M I F)
        → Above 64 age
        → Above 128 short
        → s'.line ≡ record s.line { dir_insert_sample = pos 1 }
        → s'.inserted +ℤ pos 1 ≡ s.inserted
        → Corrected age short s s'

  pub data Steered (age short : ℤ) (full : Bool) (s : Playing Q M I F)
      : Playing Q M I F → Type 0 where
    given_up :
        (s' : Playing Q M I F)
        → (pcm_chunk_queue_msg_waiting queue s.player ≡ 0)
          ⊎ ((full ≡ true) × (too_far short ≡ true))
        → IsSilent s s'
        → Steered age short full s s'
    goes_on :
        (s' : Playing Q M I F)
        → pcm_chunk_queue_msg_waiting queue s.player ≢ 0
        → (full ≡ true → (too_far short ≡ false) × Corrected age short s s')
        → (full ≡ false → (s'.line ≡ s.line) × (s'.inserted ≡ s.inserted))
        → s'.player ≡ s.player
        → s'.task ≡ s.task
        → Steered age short full s s'

  tune_lem :
      (age short mini : ℤ) (s : Playing Q M I F)
      → Corrected age short s (tune insertion age short mini s)
        × ((tune insertion age short mini s).player ≡ s.player)
        × ((tune insertion age short mini s).task ≡ s.task)
  unfolding tune
  tune_lem age short mini s = elim (Bool-cases (is_early insertion age short mini)) [
    | inl early ↦
        let (a, bc) = both_true _ _ early in
        let (b, c) = both_true _ _ bc in
        rw early (frame_more (towards insertion (negsuc 0) s) c a refl (omega int_laws), refl, refl)
    | inr ne ↦ elim (Bool-cases (is_late insertion age short mini)) [
      | inl late ↦
          let (a, bc) = both_true _ _ late in
          let (b, c) = both_true _ _ bc in
          rw (ne, late)
            (frame_less (towards insertion (pos 1) s) c a refl (omega int_laws), refl, refl)
      | inr nl ↦ rw (ne, nl) (left_alone s refl refl, refl, refl)
    ]
  ]

  -- The filters are not looked at by what follows.
  refiltered :
      (age short : ℤ) (f g : F) (s s' : Playing Q M I F)
      → Corrected age short (record s { short_filter = f; mini_filter = g }) s'
      → Corrected age short s s'
  refiltered age short f g s s' (left_alone s'' e i) = left_alone s'' e i
  refiltered age short f g s s' (frame_more s'' a b e i) = frame_more s'' a b e i
  refiltered age short f g s s' (frame_less s'' a b e i) = frame_less s'' a b e i

  silent_lem :
      (f g : F) (s : Playing Q M I F)
      → IsSilent s (resync_again (record s { short_filter = f; mini_filter = g }))
  unfolding resync_again
  silent_lem f g s = record {
    given_back = refl;
    no_chunk = refl;
    muted = refl;
    disabled = refl;
    unsynced = refl;
  }

  judge_lem :
      (age short mini : ℤ) (f g : F) (s : Playing Q M I F)
      → Steered age short
          (median.is_full f)
          s
          (judge queue median insertion age (short, f) (mini, g) s)
  judge_lem age short mini f g s =
      let empty = pcm_chunk_queue_msg_waiting queue s.player == 0 in
      let filled = median.is_full f in
      let s1 = record s { short_filter = f; mini_filter = g } in
      elim (Bool-cases (empty || (filled && too_far short))) [
        | inl stop ↦ rw stop (
            given_up (resync_again s1)
              (elim (either_true empty (filled && too_far short) stop) [
                | inl e ↦ inl (ground arith)
                | inr e ↦ inr (both_true filled (too_far short) e)
              ])
              (silent_lem f g s))
        | inr on ↦
            let (some_left, near) = neither_true empty (filled && too_far short) on in
            let waiting : pcm_chunk_queue_msg_waiting queue s.player ≢ 0 = ground arith in
            elim (Bool-cases filled) [
              | inl full ↦
                  let (change, player, task) = tune_lem age short mini s1 in
                  rw (on, full)
                    (goes_on (tune insertion age short mini s1) waiting
                      (λ e. (
                        second_false filled (too_far short) full near,
                        refiltered age short f g s (tune insertion age short mini s1) change,
                      ))
                      (λ e. absurd (cc)) player task)
              | inr nf ↦
                  rw (on, nf) (goes_on s1 waiting (λ e. absurd (cc)) (λ e. (refl, refl)) refl refl)
            ]
      ]

  -- Behind a chunk, with sample insertion and with the server's time known. The sound is given up, with the channel
  -- muted and disabled and without a chunk, only if the queue is empty or the filter is full and its median is more
  -- than 2000 microseconds off; otherwise it goes on with the player and the task as they are. While the filter is not
  -- full nothing is corrected; then one frame is inserted only if the error is below -64 and the median below -128
  -- microseconds, one is left out only if they are above 64 and 128, and the count of inserted frames follows.
  pub steer-Steered :
      (diff : ℤ) (s : Playing Q M I F)
      → let age = error_us diff s in
        let added = median.insert age s.short_filter in
        Steered age added.0 (median.is_full added.1) s (steer queue median insertion (some diff) s)
  unfolding steer
  steer-Steered diff s =
      let age = error_us diff s in
      let short = median.insert age s.short_filter in
      let mini = median.insert age s.mini_filter in judge_lem age short.0 mini.0 short.1 mini.1 s

-- ===== src/Client/Dac/Settled.antt =====
-- Every request reaches the codec: the control of the DAC in main/main.c, whatever the tasks interleave.
use snapclient.Rtos.{Mailbox, IsMailbox}
use snapclient.Base.{
  same, same-true, ℕ, ◌==◌, ◌≡◌, refl, sym, ◌∙◌, List, [], ◌∷◌, none, some, Bool, true, false, not,
  if◌then◌else◌, ◌⊎◌, inl, inr, Bool-cases, arith,
}
use snapclient.Client.Dac.{
  DacData, HalCall, set_mute, set_volume, ctrl_codec, DacState, initial, init_snapcast, request,
  audio_dac_enable, audio_set_mute, audio_set_volume, set_codec, dac_control_task,
}

-- What the codec was last told.
abbrev pub tell : HalCall → DacData → DacData
tell (set_mute b) d = record d { mute = b }
tell (set_volume v) d = record d { volume = v }
tell (ctrl_codec b) d = record d { enabled = b }

unfoldable pub told : List HalCall → DacData
told [] = initial
told (call ∷ calls) = tell call (told calls)

told_mute :
    (new old : Bool) (calls : List HalCall)
    → (told calls).mute ≡ old
    → told (if not (same new old) then set_mute new ∷ calls else calls)
      ≡ record (told calls) { mute = new }
unfolding told
told_mute new old calls e = elim (Bool-cases (same new old)) [
  | inr n ↦ rw n
  | inl y ↦ let k : new ≡ (told calls).mute = same-true new old y ∙ sym e in rw (y, k)
]

told_volume :
    (new old : ℕ) (calls : List HalCall)
    → (told calls).volume ≡ old
    → told (if not (new == old) then set_volume new ∷ calls else calls)
      ≡ record (told calls) { volume = new }
unfolding told
told_volume new old calls e = elim (Bool-cases (new == old)) [
  | inr n ↦ rw n
  | inl y ↦ let k : new ≡ (told calls).volume = ground (arith, y, e) in rw (y, k)
]

told_enabled :
    (new old : Bool) (calls : List HalCall)
    → (told calls).enabled ≡ old
    → told (if not (same new old) then ctrl_codec new ∷ calls else calls)
      ≡ record (told calls) { enabled = new }
unfolding told
told_enabled new old calls e = elim (Bool-cases (same new old)) [
  | inr n ↦ rw n
  | inl y ↦ let k : new ≡ (told calls).enabled = same-true new old y ∙ sym e in rw (y, k)
]

-- The calls for a difference leave the codec at the new request.
told-set_codec :
    (old new : DacData) (calls : List HalCall)
    → told calls ≡ old
    → told (set_codec old new calls) ≡ new
unfolding set_codec
told-set_codec old new calls e =
    let calls' = if not (same new.mute old.mute) then set_mute new.mute ∷ calls else calls in
    let calls'' =
      if not (new.volume == old.volume) then set_volume new.volume ∷ calls' else calls' in
    let m = told_mute new.mute old.mute calls (rw e) in
    let v = told_volume new.volume old.volume calls' (rw (m, e)) in
    let n = told_enabled new.enabled old.enabled calls'' (rw (v, m, e)) in n ∙ rw (v, m)

-- One task asks for something, or the task of the DAC goes round once.
pub data Step {Q : Type 0} (mailbox : Mailbox DacData Q) (s : DacState Q)
    : DacState Q → Type 0 where
  enable : (b : Bool) → Step mailbox s (audio_dac_enable mailbox b s)
  mute : (b : Bool) → Step mailbox s (audio_set_mute mailbox b s)
  volume : (v : ℕ) → Step mailbox s (audio_set_volume mailbox v s)
  control : Step mailbox s (dac_control_task mailbox s)

pub data Reach {Q : Type 0} (mailbox : Mailbox DacData Q) (queue : Q) : DacState Q → Type 0 where
  start : Reach mailbox queue (init_snapcast mailbox queue)
  later : {s t : DacState Q} → Reach mailbox queue s → Step mailbox s t → Reach mailbox queue t

module _ {Q : Type 0} (mailbox : Mailbox DacData Q) where
  pub record Settled (s : DacState Q) : Type 0 where
    pub heard : told s.calls ≡ s.old
    pub waiting :
        ((mailbox.receive s.queue ≡ none) × (s.old ≡ s.requested))
        ⊎ ((queue' : Q) × (mailbox.receive s.queue ≡ some (s.requested, queue'))
            × (mailbox.receive queue' ≡ none))

  request-Settled :
      (d : DacData) (s : DacState Q) → IsMailbox mailbox → Settled s → Settled (request mailbox d s)
  request-Settled d s law h = record { heard = h.heard; waiting = inr (law.holds_one d s.queue) }

  asked-Settled :
      (asked : Bool) (d : DacData) (s : DacState Q)
      → IsMailbox mailbox
      → Settled s
      → Settled (if asked then request mailbox d s else s)
  asked-Settled true d s law h = request-Settled d s law h
  asked-Settled false d s law h = h

  control-Settled : (s : DacState Q) → Settled s → Settled (dac_control_task mailbox s)
  unfolding dac_control_task
  control-Settled s h = elim h.waiting [
    | inl (e, o) ↦ rw e h
    | inr (queue', e, f) ↦ rw e (record {
      heard = told-set_codec s.old s.requested s.calls h.heard;
      waiting = inl (f, refl);
    })
  ]

  Step-Settled : {s t : DacState Q} → IsMailbox mailbox → Settled s → Step mailbox s t → Settled t
  unfolding audio_dac_enable audio_set_mute audio_set_volume
  Step-Settled {s} law h (enable b) =
      asked-Settled (not (same b s.requested.enabled)) (record s.requested { enabled = b }) s law h
  Step-Settled {s} law h (mute b) =
      asked-Settled (not (same b s.requested.mute)) (record s.requested { mute = b }) s law h
  Step-Settled {s} law h (volume v) =
      asked-Settled (not (v == s.requested.volume)) (record s.requested { volume = v }) s law h
  Step-Settled {s} law h control = control-Settled s h

  -- Whatever the tasks ask for and in whatever order they and the task of the DAC run: what the codec
  -- was told is what was asked for last, or the last request waits in the queue, and then none is left
  -- behind it.
  pub Reach-Settled :
      (queue : Q) (s : DacState Q)
      → IsMailbox mailbox
      → mailbox.receive queue ≡ none
      → Reach mailbox queue s
      → Settled s
  unfolding init_snapcast told
  Reach-Settled queue _ law e start = record { heard = refl; waiting = inl (e, refl) }
  Reach-Settled queue t law e (later {s} r step) =
      Step-Settled law (Reach-Settled queue s law e r) step

  -- From every state that the tasks can reach, one round of the task of the DAC leaves the codec with
  -- all that was asked for last, and the queue empty.
  pub dac_control_task-Reach :
      (queue : Q) (s : DacState Q)
      → IsMailbox mailbox
      → mailbox.receive queue ≡ none
      → Reach mailbox queue s
      → let t = dac_control_task mailbox s in
        (told t.calls ≡ s.requested)
        × (t.requested ≡ s.requested)
        × (mailbox.receive t.queue ≡ none)
  unfolding dac_control_task
  dac_control_task-Reach queue s law e r =
      let h = Reach-Settled queue s law e r in
      elim h.waiting [
        | inl (e, o) ↦ rw e (h.heard ∙ o, refl, e)
        | inr (queue', e, f) ↦ rw e (told-set_codec s.old s.requested s.calls h.heard, refl, f)
      ]

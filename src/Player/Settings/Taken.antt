-- ===== src/Player/Settings/Taken.antt =====
-- No change of the settings is lost on the way to the player's task, in
-- components/lightsnapcast/player.c.
use mathlib.Core.Path.{subst}
use snapclient.Base.{ℕ, ◌≡◌, refl, ◌∙◌, [], ◌⊎◌, inl, inr, same, Bool, true, false, none, some}
use snapclient.Rtos.{Mailbox, IsMailbox}
use snapclient.Player.Settings.Informed.{Reach, News, settings_copied_cases, Reach-IsInformed}
use snapclient.Player.Settings.{
  SnapcastSetting, SettingsState, settings_copied, take_over, can_take, receive_changed,
  take_settings,
}

module _ {Q : Type 0} (mailbox : Mailbox ℕ Q) where
  -- What the player's task does next when no other task runs: the copy that it is at, or a round.
  abbrev pub look_on : Bool → SnapcastSetting → SettingsState Q → SnapcastSetting × SettingsState Q
  look_on true own s = take_over mailbox own (true, s)
  look_on false own s = take_settings mailbox own s

  round_lem :
      (own : SnapcastSetting) (s : SettingsState Q) (queue : Q)
      → s.changed ≡ some queue
      → News mailbox queue [] false own s.current
      → let (own', s') = take_settings mailbox own s in
        (s'.current ≡ s.current)
        × (receive_changed mailbox s' ≡ none)
        × ((own' ≡ s.current) ⊎ (can_take s.current ≡ false))
  unfolding take_settings receive_changed
  round_lem own s queue there (inl (n, q, e, f)) =
      rw (there, e) (refl, f, settings_copied_cases mailbox own s)
  round_lem own s queue there (inr (e, inl look)) = absurd (cc)
  round_lem own s queue there (inr (e, inr (inl f))) = absurd (cc)
  round_lem own s queue there (inr (e, inr (inr k))) = rw (there, e) (refl, e, k)

  -- However the client's task and the player's task interleave, access by access: between two calls of the client's
  -- task, when the player's task ends the look for news that it is at, or looks again, it has the settings
  -- that were sent last, unless those are not complete; and the queue is empty after a look from its start.
  pub take_settings-Reach :
      (queue : Q) (first wanted own : SnapcastSetting) (looking : Bool) (s : SettingsState Q)
      → IsMailbox mailbox
      → mailbox.receive queue ≡ none
      → Reach mailbox queue first [] wanted looking own s
      → let (own', s') = look_on looking own s in
        (s'.current ≡ wanted)
        × (looking ≡ false → receive_changed mailbox s' ≡ none)
        × ((own' ≡ wanted) ⊎ (can_take wanted ≡ false))
  take_settings-Reach queue first wanted own true s law e r =
      let h = Reach-IsInformed mailbox queue first law e r in
      let done =
        subst (λ w. (settings_copied mailbox own s ≡ w) ⊎ (can_take w ≡ false)) h.underway
          (settings_copied_cases mailbox own s) in
      (h.underway, (λ f. absurd (cc)), done)
  take_settings-Reach queue first wanted own false s law e r =
      let h = Reach-IsInformed mailbox queue first law e r in
      let (same, empty, took) = round_lem own s h.queue h.changed h.news in
      let done =
        subst (λ w. ((take_settings mailbox own s).0 ≡ w) ⊎ (can_take w ≡ false)) h.underway took in
      (same ∙ h.underway, (λ f. empty), done)

-- ===== src/Player/Settings/Informed.antt =====
-- The settings between the client's task and the player's task, access by access, in
-- components/lightsnapcast/player.c.
use snapclient.Base.{
  ℕ, ◌≡◌, refl, List, [], ◌∷◌, ◌⊎◌, inl, inr, Bool, true, false, Bool-cases, none, some,
}
use snapclient.Rtos.{Mailbox, IsMailbox}
use snapclient.Player.Settings.Sent.{agree-true}
use snapclient.Player.Settings.{
  SnapcastSetting, SettingsState, Access, set, notify, send_accesses, access, news_received,
  settings_copied, agree, can_take, player_get_snapcast_settings, receive_changed,
}

-- The two tasks, in any order of their single accesses. `left` is what the client's task has still to do of its
-- call, `wanted` the setting that it was last called with, and `looking` whether the player's task has a
-- notification and has not settings_copied the settings yet; `own` are its settings. At the start the player's task has
-- read the settings and its queue is empty.
pub data Reach {Q : Type 0} (mailbox : Mailbox ℕ Q) (queue : Q) (first : SnapcastSetting)
    : List Access → SnapcastSetting → Bool → SnapcastSetting → SettingsState Q → Type 0 where
  start :
      (got : Bool)
      → Reach mailbox queue first [] first false first
          (record { current = first; got_settings = got; has_task = true; changed = some queue })
  call :
      {wanted own : SnapcastSetting} {looking : Bool} {s : SettingsState Q}
      (setting : SnapcastSetting)
      → Reach mailbox queue first [] wanted looking own s
      → Reach mailbox queue first
          (send_accesses (player_get_snapcast_settings mailbox s) setting)
          setting
          looking
          own
          s
  one :
      {a : Access} {left : List Access} {wanted own : SnapcastSetting} {looking : Bool}
      {s : SettingsState Q}
      → Reach mailbox queue first (a ∷ left) wanted looking own s
      → Reach mailbox queue first left wanted looking own (access mailbox a s)
  receive :
      {left : List Access} {wanted own : SnapcastSetting} {s : SettingsState Q}
      → Reach mailbox queue first left wanted false own s
      → Reach mailbox queue first left wanted
          (news_received mailbox s (receive_changed mailbox s)).0
          own
          (news_received mailbox s (receive_changed mailbox s)).1
  copy :
      {left : List Access} {wanted own : SnapcastSetting} {s : SettingsState Q}
      → Reach mailbox queue first left wanted true own s
      → Reach mailbox queue first left wanted false (settings_copied mailbox own s) s

-- What is left of a call, by what the settings are.
abbrev pub Underway : List Access → SnapcastSetting → SnapcastSetting → Type 0
Underway [] current wanted = current ≡ wanted
Underway (notify ∷ []) current wanted = current ≡ wanted
Underway (set setting ∷ notify ∷ []) current wanted = setting ≡ wanted
Underway (notify ∷ a ∷ left) current wanted = ⊥
Underway (set setting ∷ []) current wanted = ⊥
Underway (set setting ∷ set other ∷ left) current wanted = ⊥
Underway (set setting ∷ notify ∷ a ∷ left) current wanted = ⊥

module _ {Q : Type 0} (mailbox : Mailbox ℕ Q) where
  -- The player's task has the settings or is about to copy them, or news of them waits or is about to be sent, or they
  -- are not complete.
  abbrev pub News : Q → List Access → Bool → SnapcastSetting → SnapcastSetting → Type 0
  News queue left looking own current =
      ((n : ℕ) × (q : Q) × (mailbox.receive queue ≡ some (n, q)) × (mailbox.receive q ≡ none))
      ⊎ ((mailbox.receive queue ≡ none)
          × ((looking ≡ true)
              ⊎ ((left ≡ notify ∷ []) ⊎ ((own ≡ current) ⊎ (can_take current ≡ false)))))

  pub record IsInformed (left : List Access) (wanted : SnapcastSetting) (looking : Bool)
      (own : SnapcastSetting) (s : SettingsState Q) : Type 0 where
    pub queue : Q
    pub changed : s.changed ≡ some queue
    pub has_task : s.has_task ≡ true
    pub underway : Underway left s.current wanted
    pub news : News queue left looking own s.current

  call-News :
      (queue : Q) (left : List Access) (looking : Bool) (own current : SnapcastSetting)
      → News queue [] looking own current
      → News queue left looking own current
  call-News queue left looking own current (inl news) = inl news
  call-News queue left looking own current (inr (e, inl look)) = inr (e, inl look)
  call-News queue left looking own current (inr (e, inr (inl f))) = absurd (cc)
  call-News queue left looking own current (inr (e, inr (inr k))) = inr (e, inr (inr k))

  call-Underway :
      (current setting : SnapcastSetting) → Underway (send_accesses current setting) current setting
  call-Underway current setting = elim (Bool-cases (agree current setting)) [
    | inl agrees ↦ rw agrees (agree-true current setting agrees)
    | inr differ ↦ rw differ refl
  ]

  one-IsInformed :
      (a : Access) (left : List Access) (wanted own : SnapcastSetting) (looking : Bool)
      (s : SettingsState Q)
      → IsMailbox mailbox
      → IsInformed (a ∷ left) wanted looking own s
      → IsInformed left wanted looking own (access mailbox a s)
  one-IsInformed notify [] wanted own looking s law h =
      let (q, e, f) = law.holds_one 1 h.queue in
      rw (h.has_task, h.changed)
        (record {
          queue = mailbox.overwrite 1 h.queue;
          changed = refl;
          has_task = refl;
          underway = h.underway;
          news = inl (1, q, e, f);
        })
  one-IsInformed (set setting) (notify ∷ []) wanted own looking s law h = record {
    queue = h.queue;
    changed = h.changed;
    has_task = h.has_task;
    underway = h.underway;
    news = elim h.news [ inl n ↦ inl n | inr r ↦ inr (r.0, inr (inl refl)) ];
  }
  one-IsInformed notify (a ∷ left) wanted own looking s law h = elim h.underway [ ]
  one-IsInformed (set setting) [] wanted own looking s law h = elim h.underway [ ]
  one-IsInformed (set setting) (set other ∷ left) wanted own looking s law h = elim h.underway [ ]
  one-IsInformed (set setting) (notify ∷ a ∷ left) wanted own looking s law h = elim h.underway [ ]

  receive-IsInformed :
      (left : List Access) (wanted own : SnapcastSetting) (s : SettingsState Q)
      → IsInformed left wanted false own s
      → let (looking, s') = news_received mailbox s (receive_changed mailbox s) in
        IsInformed left wanted looking own s'
  unfolding receive_changed
  receive-IsInformed left wanted own s h = elim h.news [
    | inl (n, q, e, f) ↦
        rw (h.changed, e)
          (record {
            queue = q;
            changed = refl;
            has_task = h.has_task;
            underway = h.underway;
            news = inr (f, inl refl);
          })
    | inr (e, k) ↦
        rw (h.changed, e)
          (record {
            queue = h.queue;
            changed = refl;
            has_task = h.has_task;
            underway = h.underway;
            news = inr (e, k);
          })
  ]

  pub settings_copied_cases :
      (own : SnapcastSetting) (s : SettingsState Q)
      → (settings_copied mailbox own s ≡ s.current) ⊎ (can_take s.current ≡ false)
  settings_copied_cases own s = elim (Bool-cases (can_take s.current)) [
    | inl whole ↦ inl (rw whole refl)
    | inr part ↦ inr part
  ]

  pub Reach-IsInformed :
      (queue : Q) (first : SnapcastSetting) {left : List Access} {wanted : SnapcastSetting}
      {looking : Bool} {own : SnapcastSetting} {s : SettingsState Q}
      → IsMailbox mailbox
      → mailbox.receive queue ≡ none
      → Reach mailbox queue first left wanted looking own s
      → IsInformed left wanted looking own s
  Reach-IsInformed queue first law e (start got) = record {
    queue = queue;
    changed = refl;
    has_task = refl;
    underway = refl;
    news = inr (e, inr (inr (inl refl)));
  }
  Reach-IsInformed queue first law e (call {wanted} {own} {looking} {s} setting r) =
      let h = Reach-IsInformed queue first law e r in
      record {
        queue = h.queue;
        changed = h.changed;
        has_task = h.has_task;
        underway = call-Underway s.current setting;
        news = call-News h.queue _ looking own s.current h.news;
      }
  Reach-IsInformed queue first law e (one {a} {left} {wanted} {own} {looking} {s} r) =
      one-IsInformed a left wanted own looking s law (Reach-IsInformed queue first law e r)
  Reach-IsInformed queue first law e (receive {left} {wanted} {own} {s} r) =
      receive-IsInformed left wanted own s (Reach-IsInformed queue first law e r)
  Reach-IsInformed queue first law e (copy {left} {wanted} {own} {s} r) =
      let h = Reach-IsInformed queue first law e r in
      record {
        queue = h.queue;
        changed = h.changed;
        has_task = h.has_task;
        underway = h.underway;
        news = elim h.news [
          | inl n ↦ inl n
          | inr n ↦ inr (n.0, inr (inr (settings_copied_cases own s)))
        ];
      }

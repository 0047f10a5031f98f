-- ===== src/Settings/Saves.antt =====
-- The saves of components/settings_manager/settings_manager.c, and what the code relies on of the NVS library.
use snapclient.Base.{
  ℕ, ◌<◌, ◌≡◌, ◌≢◌, inl, inr, refl, sym, ◌∙◌, List, Option, some, Bool, true, false, Bool-cases,
  length,
}
use snapclient.Settings.{
  EspErr, Key, Nvs, Manager, esp_ok, timeout, is_ok, save, save_opened, commit_if_ok, after_lock,
  locked,
}

pub data Content : Type 0 where
  string : List ℕ → Content
  integer : ℕ → Content

-- A write that succeeds stores its content, and any write leaves the other keys alone.
abbrev pub Stores :
    {N : Type 0} → (Key → N → Option Content) → Key → Content → N → EspErr × N → Type 0
Stores content key c old (err, n) =
    (is_ok err ≡ true → content key n ≡ some c)
    × ((other : Key) → other ≢ key → content other n ≡ content other old)

abbrev pub Keeps : {N : Type 0} → (Key → N → Option Content) → N → N → Type 0
Keeps content old n = (key : Key) → content key n ≡ content key old

-- The NVS library, by what stands under each key: a string is read into a buffer that it fits in.
pub record IsNvs {N : Type 0} (nvs : Nvs N) (content : Key → N → Option Content) : Type 0 where
  pub lock_keeps : (n : N) → Keeps content n (nvs.lock n).1
  pub open_keeps : (n : N) → Keeps content n (nvs.open_write n).1
  pub commit_keeps : (n : N) → Keeps content n (nvs.commit n).1
  pub str_stores :
      (key : Key) (v : List ℕ) (n : N) → Stores content key (string v) n (nvs.set_str key v n)
  pub i32_stores :
      (key : Key) (v : ℕ) (n : N) → Stores content key (integer v) n (nvs.set_i32 key v n)
  pub opens : (key : Key) (c : Content) (n : N) → content key n ≡ some c → nvs.open_read n ≡ esp_ok
  pub str_stored :
      (key : Key) (v : List ℕ) (max_len : ℕ) (n : N)
      → content key n ≡ some (string v)
      → length v < max_len
      → nvs.get_str key max_len n ≡ (esp_ok, v)
  pub i32_stored :
      (key : Key) (v : ℕ) (n : N)
      → content key n ≡ some (integer v)
      → nvs.get_i32 key n ≡ (esp_ok, v)

pub is_false : ¬ (false ≡ true)
is_false e = cc

module _ {N : Type 0} (nvs : Nvs N) (content : Key → N → Option Content) where
  commit-Stores :
      (key : Key) (c : Content) (old : N) (r : EspErr × N)
      → IsNvs nvs content
      → Stores content key c old r
      → Stores content key c old (commit_if_ok nvs r)
  commit-Stores key c old (err, n) law h = elim (Bool-cases (is_ok err)) [
    | inl good ↦ rw good (
      (λ _. law.commit_keeps n key ∙ h.0 good),
      (λ other differs. law.commit_keeps n other ∙ h.1 other differs),
    )
    | inr bad ↦ rw bad ((λ e. absurd (is_false (sym bad ∙ e))), h.1)
  ]

  opened-Stores :
      (key : Key) (c : Content) (write : N → EspErr × N) (old : N) (r : EspErr × N)
      → IsNvs nvs content
      → ((n : N) → Stores content key c n (write n))
      → Keeps content old r.1
      → Stores content key c old (save_opened nvs write r)
  opened-Stores key c write old (err, n) law w keeps = elim (Bool-cases (is_ok err)) [
    | inl good ↦
        let (stored, others) = commit-Stores key c n (write n) law (w n) in
        rw good (stored, (λ other differs. others other differs ∙ keeps other))
    | inr bad ↦ rw bad ((λ e. absurd (is_false (sym bad ∙ e))), (λ other differs. keeps other))
  ]

  pub save-Stores :
      (key : Key) (c : Content) (write : N → EspErr × N) (n : N)
      → IsNvs nvs content
      → ((n' : N) → Stores content key c n' (write n'))
      → Stores content key c n (save nvs write n)
  unfolding save
  save-Stores key c write n law w =
      opened-Stores key c write n (nvs.open_write n) law w (law.open_keeps n)

  after_lock-Stores :
      (key : Key) (c : Content) (body : N → EspErr × N) (m : Manager N) (r : Bool × N)
      → ((n : N) → Stores content key c n (body n))
      → Keeps content m.store r.1
      → let (err, m') = after_lock nvs timeout body m r in
        (m'.mutex ≡ m.mutex) × Stores content key c m.store (err, m'.store)
  after_lock-Stores key c body m (false, n) w keeps =
      (refl, ((λ e. absurd (is_false e)), (λ other differs. keeps other)))
  after_lock-Stores key c body m (true, n) w keeps =
      let (stored, others) = w n in
      (refl, (stored, (λ other differs. others other differs ∙ keeps other)))

  pub locked-Stores :
      (key : Key) (c : Content) (body : N → EspErr × N) (m : Manager N)
      → IsNvs nvs content
      → ((n : N) → Stores content key c n (body n))
      → let (err, m') = locked nvs body m in
        (m'.mutex ≡ m.mutex)
        × (is_ok err ≡ true → m.mutex ≡ true)
        × Stores content key c m.store (err, m'.store)
  locked-Stores key c body m law w = elim (Bool-cases m.mutex) [
    | inl there ↦
        let ready : Manager N = record { mutex = true; store = m.store } in
        let (same, stores) =
          after_lock-Stores key c body ready (nvs.lock m.store) w (law.lock_keeps m.store) in
        rw there (same, (λ _. refl), stores)
    | inr missing ↦
        rw missing
          (refl, (λ e. absurd (is_false e)), ((λ e. absurd (is_false e)), (λ other differs. refl)))
  ]

-- ===== src/DspSettings/Access.antt =====
-- What dsp_processor_settings.c finds again of an integer that it stores.
use snapclient.Base.{
  ℕ, List, Option, none, some, true, false, Bool-cases, inl, inr, ◌≡◌, refl, sym, ◌∙◌, ap,
}
use snapclient.Settings.{EspErr, esp_ok, is_ok}
use snapclient.Settings.Saves.{is_false}
use snapclient.DspSettings.{
  DspNvs, DspSettings, committed, put_opened, stored_in, save_i32, load_opened, load_i32,
}

-- What the library documents, on what is stored under a key, when the mutex is free.
pub record IsDspNvs {N : Type 0} (nvs : DspNvs N) (content : List ℕ → N → Option ℕ) : Type 0 where
  pub lock_free : (n : N) → nvs.lock n ≡ (true, n)
  pub open_found :
      (key : List ℕ) (v : ℕ) (n : N) → content key n ≡ some v → nvs.open_read n ≡ esp_ok
  pub get_found :
      (key : List ℕ) (v : ℕ) (n : N) → content key n ≡ some v → nvs.get_i32 key n ≡ (esp_ok, v)
  pub get_missing :
      (key : List ℕ) (n : N) → content key n ≡ none → is_ok (nvs.get_i32 key n).0 ≡ false
  pub open_keeps : (key : List ℕ) (n : N) → content key (nvs.open_write n).1 ≡ content key n
  pub commit_keeps : (key : List ℕ) (n : N) → content key (nvs.commit n).1 ≡ content key n
  pub set_stores :
      (key : List ℕ) (v : ℕ) (n : N)
      → is_ok (nvs.set_i32 key v n).0 ≡ true
      → content key (nvs.set_i32 key v n).1 ≡ some v
  pub set_keeps :
      (key other : List ℕ) (v : ℕ) (n : N)
      → ¬ (key ≡ other)
      → content other (nvs.set_i32 key v n).1 ≡ content other n

module _ {N : Type 0} (nvs : DspNvs N) (content : List ℕ → N → Option ℕ) where
  -- A successful write from this memory stores the value under its key and nothing else.
  abbrev pub Puts : List ℕ → ℕ → N → EspErr × N → Type 0
  Puts key v n (err, n') =
      is_ok err ≡ true
      → (content key n' ≡ some v)
        × ((other : List ℕ) → ¬ (key ≡ other) → content other n' ≡ content other n)

  committed-Puts :
      (key : List ℕ) (v : ℕ) (n : N) (r : EspErr × N)
      → IsDspNvs nvs content
      → Puts key v n r
      → Puts key v n (committed nvs r)
  committed-Puts key v n (err, n') law puts = elim (Bool-cases (is_ok err)) [
    | inl ok ↦ rw ok (λ done.
        let (here, others) = puts ok in
        (
          law.commit_keeps key n' ∙ here,
          (λ other differs. law.commit_keeps other n' ∙ others other differs),
        ))
    | inr bad ↦ rw bad puts
  ]

  put_opened-Puts :
      (key : List ℕ) (v : ℕ) (n : N)
      → IsDspNvs nvs content
      → Puts key v n (put_opened nvs key v (nvs.open_write n))
  put_opened-Puts key v n law = elim (Bool-cases (is_ok (nvs.open_write n).0)) [
    | inl ok ↦
        let n1 : N = (nvs.open_write n).1 in
        rw ok (
          committed-Puts key v n (nvs.set_i32 key v n1) law (λ done. (
            law.set_stores key v n1 done,
            (λ other differs. law.set_keeps key other v n1 differs ∙ law.open_keeps other n),
          )))
    | inr bad ↦ rw bad (λ done. absurd (is_false (sym bad ∙ done)))
  ]

  -- What is found under a key whose value may be missing.
  abbrev pub Finds : Option ℕ → EspErr × Option ℕ → Type 0
  Finds none (err, v) = (is_ok err ≡ false) × (v ≡ none)
  Finds (some v) answer = answer ≡ (esp_ok, some v)

  load_opened-missing :
      (key : List ℕ) (n : N)
      → IsDspNvs nvs content
      → content key n ≡ none
      → Finds none (load_opened nvs key n (nvs.open_read n))
  load_opened-missing key n law missing = elim (Bool-cases (is_ok (nvs.open_read n))) [
    | inl ok ↦ let bad = law.get_missing key n missing in rw (ok, bad) (refl, refl)
    | inr bad ↦ rw bad (bad, refl)
  ]

  pub load_opened-Finds :
      (key : List ℕ) (n : N) (c : Option ℕ)
      → IsDspNvs nvs content
      → content key n ≡ c
      → Finds c (load_opened nvs key n (nvs.open_read n))
  load_opened-Finds key n none law e = load_opened-missing key n law e
  load_opened-Finds key n (some v) law e =
      rw (law.open_found key v n e, law.get_found key v n e) refl

  module _ {R : Type 0} where
    -- The mutex is there, and what is stored is as after a write from the memory of `s`.
    abbrev pub Saves : List ℕ → ℕ → DspSettings N R → EspErr × DspSettings N R → Type 0
    Saves key v s (err, s') =
        is_ok err ≡ true
        → (s'.mutex ≡ true)
          × (content key s'.store ≡ some v)
          × (s'.told ≡ s.told)
          × ((other : List ℕ) → ¬ (key ≡ other) → content other s'.store ≡ content other s.store)

    stored_in-Saves :
        (key : List ℕ) (v : ℕ) (n : N) (s : DspSettings N R) (r : EspErr × N)
        → s.mutex ≡ true
        → s.store ≡ n
        → Puts key v n r
        → Saves key v s (stored_in nvs s r)
    stored_in-Saves key v n s (err, n') there same puts done =
        let (here, others) = puts done in
        (there, here, refl, (λ other differs. others other differs ∙ ap (content other) (sym same)))

    pub save_i32-Saves :
        (key : List ℕ) (v : ℕ) (s : DspSettings N R)
        → IsDspNvs nvs content
        → Saves key v s (save_i32 nvs key v s)
    unfolding save_i32
    save_i32-Saves key v s law = elim (Bool-cases s.mutex) [
      | inl there ↦
          let ready : DspSettings N R = record { mutex = true; store = s.store; told = s.told } in
          rw (there, law.lock_free s.store)
            (stored_in-Saves key v s.store ready (put_opened nvs key v (nvs.open_write s.store))
              refl refl (put_opened-Puts key v s.store law))
      | inr missing ↦ rw missing (λ done. absurd (is_false done))
    ]

    pub load_i32-opened :
        (key : List ℕ) (s : DspSettings N R)
        → IsDspNvs nvs content
        → s.mutex ≡ true
        → load_i32 nvs key s ≡ (load_opened nvs key s.store (nvs.open_read s.store), s)
    unfolding load_i32
    load_i32-opened key s law there = rw (there, law.lock_free s.store) refl

    pub load_i32-found :
        (key : List ℕ) (v : ℕ) (s : DspSettings N R)
        → IsDspNvs nvs content
        → s.mutex ≡ true
        → content key s.store ≡ some v
        → load_i32 nvs key s ≡ ((esp_ok, some v), s)
    load_i32-found key v s law there here =
        load_i32-opened key s law there
        ∙ ap (λ answer. (answer, s)) (load_opened-Finds key s.store (some v) law here)

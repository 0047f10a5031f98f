-- ===== src/DspSettings/Restored.antt =====
-- What the start of dsp_processor_settings.c tells the processor.
use snapclient.Base.{
  ℕ, List, [], ◌∷◌, Option, none, some, true, Bool-cases, inl, inr, ◌≡◌, refl, ◌∙◌, ap,
}
use snapclient.Settings.{EspErr, esp_ok}
use snapclient.DspSettings.{
  DspNvs, Floats, DspSettings, ProcessorCall, set_params_for_flow, switch_flow, is_flow, tell,
  key_active, load_opened, dsp_settings_load_active_flow,
}
use snapclient.DspSettings.Params.{tell_params, restore, all_flows, start_flow, dsp_settings_init}
use snapclient.DspSettings.Access.{IsDspNvs, Finds, load_opened-Finds, load_i32-opened}
use snapclient.DspSettings.Saved.{saved_params, dsp_settings_get_flow_params-saved}

module _ {N R : Type 0} (nvs : DspNvs N) (content : List ℕ → N → Option ℕ) (floats : Floats R)
    (print : ℕ → List ℕ) where
  -- The calls that hand over the saved parameters of these flows, the last one first.
  abbrev pub told_all : List ℕ → N → List (ProcessorCall R) → List (ProcessorCall R)
  told_all [] n told = told
  told_all (f ∷ flows) n told =
      told_all flows n (set_params_for_flow f (saved_params nvs content floats print f n) ∷ told)

  -- What is told at the start, by the flow that is saved as active.
  abbrev pub told_at_start : Option ℕ → N → List (ProcessorCall R) → List (ProcessorCall R)
  told_at_start none n told = switch_flow 0 ∷ told
  told_at_start (some active) n told = switch_flow active ∷ told_all all_flows n told

  abbrev AllValid : List ℕ → Type 0
  AllValid [] = Unit
  AllValid (f ∷ flows) = (is_flow f ≡ true) × AllValid flows

  restore_lem :
      (flows : List ℕ) (s : DspSettings N R)
      → IsDspNvs nvs content
      → AllValid flows
      → s.mutex ≡ true
      → restore nvs floats print flows s ≡ record s { told = told_all flows s.store s.told }
  unfolding restore
  restore_lem [] s law valid there = refl
  restore_lem (f ∷ flows) s law (valid, rest) there =
      ap (λ r. restore nvs floats print flows (tell_params nvs floats print f r))
        (dsp_settings_get_flow_params-saved nvs content floats print f s law valid there)
      ∙ restore_lem flows
          (tell (set_params_for_flow f (saved_params nvs content floats print f s.store)) s) law
          rest there

  start_flow_lem :
      (c : Option ℕ) (answer : EspErr × Option ℕ) (s : DspSettings N R)
      → IsDspNvs nvs content
      → s.mutex ≡ true
      → Finds nvs content c answer
      → start_flow nvs floats print (answer, s)
        ≡ (esp_ok, record s { told = told_at_start c s.store s.told })
  start_flow_lem none (err, v) s law there (bad, missing) = rw (bad, missing) refl
  start_flow_lem (some a) answer s law there found =
      ap (start_flow nvs floats print) (ap (λ r. (r, s)) found)
      ∙ ap (λ s'. (esp_ok, tell (switch_flow a) s'))
          (restore_lem all_flows s law (refl, (refl, (refl, (refl, (refl, (refl, tt)))))) there)

  start_load_lem :
      (s : DspSettings N R)
      → IsDspNvs nvs content
      → s.mutex ≡ true
      → start_flow nvs floats print (dsp_settings_load_active_flow nvs s)
        ≡ (esp_ok, record s { told = told_at_start (content key_active s.store) s.store s.told })
  unfolding dsp_settings_load_active_flow
  start_load_lem s law there =
      ap (start_flow nvs floats print) (load_i32-opened nvs content key_active s law there)
      ∙ start_flow_lem (content key_active s.store)
          (load_opened nvs key_active s.store (nvs.open_read s.store)) s law there
          (load_opened-Finds nvs content key_active s.store _ law refl)

  -- The start hands over to the processor the saved parameters of all six flows in order, the defaults in place of what
  -- is missing, and then switches it to the flow saved as active. With no flow saved as active it only switches to flow
  -- 0 and hands over nothing, whatever parameters are saved. It holds when the mutex is there or can be created, the
  -- mutex is free, and the NVS library keeps what it documents.
  pub dsp_settings_init_lem :
      (s : DspSettings N R)
      → IsDspNvs nvs content
      → nvs.create_mutex ≡ true
      → dsp_settings_init nvs floats print s ≡ (
        esp_ok,
        record {
          mutex = true;
          store = s.store;
          told = told_at_start (content key_active s.store) s.store s.told;
        },
      )
  unfolding dsp_settings_init
  dsp_settings_init_lem s law created =
      let ready : DspSettings N R = record s { mutex = true } in
      elim (Bool-cases s.mutex) [
        | inl there ↦
            let runs : dsp_settings_init nvs floats print s
                ≡ start_flow nvs floats print (dsp_settings_load_active_flow nvs s) =
              simp there in
            runs
            ∙ ap
                (λ m.
                  start_flow nvs floats print
                    (dsp_settings_load_active_flow nvs (record s { mutex = m })))
                there
            ∙ start_load_lem ready law refl
        | inr missing ↦
            let runs : dsp_settings_init nvs floats print s
                ≡ start_flow nvs floats print (dsp_settings_load_active_flow nvs ready) =
              simp (missing, created) in
            runs ∙ start_load_lem ready law refl
      ]

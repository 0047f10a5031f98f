-- ===== src/DspSettings/Switched.antt =====
-- Making a flow the active one, in dsp_processor_settings.c.
use mathlib.Core.Path.{subst}
use snapclient.Base.{
  ℕ, List, ◌∷◌, Option, some, true, Bool-cases, inl, inr, ◌≡◌, refl, sym, ◌∙◌, ap,
}
use snapclient.Settings.{EspErr, is_ok}
use snapclient.Settings.Saves.{is_false}
use snapclient.DspSettings.{
  DspNvs, Floats, DspSettings, set_params_for_flow, switch_flow, is_flow, key_active, make_flow_key,
  dsp_settings_load_active_flow, dsp_settings_save_active_flow, dsp_settings_get_active_flow,
  save_i32,
}
use snapclient.DspSettings.Params.{after_switch, dsp_settings_switch_active_flow}
use snapclient.DspSettings.Keys.{PrintsDigits, key_active-flow}
use snapclient.DspSettings.Access.{IsDspNvs, Saves, save_i32-Saves, load_i32-found}
use snapclient.DspSettings.Saved.{saved_params, dsp_settings_get_flow_params-saved}

module _ {N R : Type 0} (nvs : DspNvs N) (content : List ℕ → N → Option ℕ) (floats : Floats R)
    (print : ℕ → List ℕ) where
  -- The flow is the active one, and the processor was told of its parameters and then to switch.
  abbrev pub Switches : ℕ → DspSettings N R → EspErr × DspSettings N R → Type 0
  Switches flow s (err, s') =
      is_ok err ≡ true
      → (dsp_settings_get_active_flow nvs s' ≡ (flow, s'))
        × (s'.told
            ≡ switch_flow flow
              ∷ set_params_for_flow flow (saved_params nvs content floats print flow s.store)
              ∷ s.told)

  get_active_flow-found :
      (flow : ℕ) (s : DspSettings N R)
      → IsDspNvs nvs content
      → s.mutex ≡ true
      → content key_active s.store ≡ some flow
      → dsp_settings_get_active_flow nvs s ≡ (flow, s)
  unfolding dsp_settings_get_active_flow dsp_settings_load_active_flow
  get_active_flow-found flow s law there here =
      rw (load_i32-found nvs content key_active flow s law there here) refl

  saved_params-active :
      (flow : ℕ) (n n' : N)
      → PrintsDigits print
      → is_flow flow ≡ true
      → ((other : List ℕ) → ¬ (key_active ≡ other) → content other n' ≡ content other n)
      → saved_params nvs content floats print flow n' ≡ saved_params nvs content floats print flow n
  saved_params-active flow n n' digits valid others =
      let differs = key_active-flow print digits flow valid in
      rw
        (
          others (make_flow_key print flow "fc_1") (differs "fc_1"),
          others (make_flow_key print flow "gain_1") (differs "gain_1"),
          others (make_flow_key print flow "fc_3") (differs "fc_3"),
          others (make_flow_key print flow "gain_3") (differs "gain_3"),
        )
        refl

  after_switch-Switches :
      (flow : ℕ) (s : DspSettings N R) (r : EspErr × DspSettings N R)
      → IsDspNvs nvs content
      → PrintsDigits print
      → is_flow flow ≡ true
      → Saves nvs content key_active flow s r
      → Switches flow s (after_switch nvs floats print flow r)
  after_switch-Switches flow s (err, s') law digits valid saves = elim (Bool-cases (is_ok err)) [
    | inl ok ↦ rw ok (λ done.
        let (there, here, told, others) = saves ok in
        rw (dsp_settings_get_flow_params-saved nvs content floats print flow s' law valid there) (
          get_active_flow-found flow _ law there here,
          ap
                (λ t.
                  switch_flow flow
                  ∷ set_params_for_flow flow (saved_params nvs content floats print flow s'.store)
                  ∷ t)
                told
              ∙ ap (λ p. switch_flow flow ∷ set_params_for_flow flow p ∷ s.told)
                  (saved_params-active flow s.store s'.store digits valid others),
        ))
    | inr bad ↦ rw bad (λ done. absurd (is_false (sym bad ∙ done)))
  ]

  -- Once a switch of the active flow succeeds, that flow is the one read as active, and the processor was told first of
  -- the parameters saved for it, the defaults in place of what is missing, and then to switch to it. It holds when the
  -- mutex is free and the NVS library keeps what it documents.
  pub dsp_settings_switch_active_flow-get :
      (flow : ℕ) (s : DspSettings N R)
      → IsDspNvs nvs content
      → PrintsDigits print
      → Switches flow s (dsp_settings_switch_active_flow nvs floats print flow s)
  unfolding dsp_settings_switch_active_flow dsp_settings_save_active_flow
  dsp_settings_switch_active_flow-get flow s law digits = elim (Bool-cases (is_flow flow)) [
    | inl valid ↦
        let after : EspErr × DspSettings N R =
          after_switch nvs floats print flow (save_i32 nvs key_active flow s) in
        let runs : dsp_settings_switch_active_flow nvs floats print flow s ≡ after = simp valid in
        subst (Switches flow s) (sym runs) (
          after_switch-Switches flow s (save_i32 nvs key_active flow s) law digits valid
            (save_i32-Saves nvs content key_active flow s law))
    | inr wrong ↦ rw wrong (λ done. absurd (is_false done))
  ]

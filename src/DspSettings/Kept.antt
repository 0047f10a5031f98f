-- ===== src/DspSettings/Kept.antt =====
-- What dsp_processor_settings.c gives back of a flow's parameters, and what the processor is told of them.
use mathlib.Core.Path.{subst}
use snapclient.Base.{
  ℕ, ◌==◌, List, ◌∷◌, Option, none, some, Bool, true, false, Bool-cases, ◌&&◌, inl, inr,
  if◌then◌else◌, ◌≡◌, refl, sym, ◌∙◌, ap,
}
use snapclient.Settings.{EspErr, is_ok}
use snapclient.Settings.Saves.{is_false}
use snapclient.DspSettings.{
  DspNvs, Floats, FilterParams, DspSettings, ProcessorCall, set_params_for_flow, is_flow,
  key_active, make_flow_key, save_i32, load_opened, dsp_settings_load_active_flow,
  dsp_settings_save_flow_param,
}
use snapclient.DspSettings.Params.{
  dsp_settings_get_flow_params, save_params, apply_if_active, after_save,
  dsp_settings_set_flow_params,
}
use snapclient.DspSettings.Keys.{
  PrintsDigits, gain_1-fc_1, fc_3-fc_1, gain_3-fc_1, fc_3-gain_1, gain_3-gain_1, gain_3-fc_3,
  flow_key-active,
}
use snapclient.DspSettings.Saved.{saved_params, dsp_settings_get_flow_params-saved}
use snapclient.DspSettings.Access.{
  IsDspNvs, Finds, save_i32-Saves, load_opened-Finds, load_i32-opened,
}

and-both : (a b : Bool) → (a && b) ≡ true → (a ≡ true) × (b ≡ true)
and-both true b e = (refl, e)
and-both false b e = absurd (is_false e)

module _ {N R : Type 0} (nvs : DspNvs N) (content : List ℕ → N → Option ℕ) (floats : Floats R)
    (print : ℕ → List ℕ) where
  -- The integers of these parameters stand under the flow's keys, and the mutex is there.
  abbrev pub Holds : ℕ → FilterParams R → DspSettings N R → Type 0
  Holds flow params s =
      (s.mutex ≡ true)
      × (content (make_flow_key print flow "fc_1") s.store ≡ some (floats.to_int params.fc_1))
      × (content (make_flow_key print flow "gain_1") s.store ≡ some (floats.to_int params.gain_1))
      × (content (make_flow_key print flow "fc_3") s.store ≡ some (floats.to_int params.fc_3))
      × (content (make_flow_key print flow "gain_3") s.store ≡ some (floats.to_int params.gain_3))

  save_params-Holds :
      (flow : ℕ) (params : FilterParams R) (s : DspSettings N R)
      → IsDspNvs nvs content
      → PrintsDigits print
      → is_flow flow ≡ true
      → let (ok, s') = save_params nvs floats print flow params s in
        ok ≡ true
        → Holds flow params s'
          × (content key_active s'.store ≡ content key_active s.store)
          × (s'.told ≡ s.told)
  unfolding save_params dsp_settings_save_flow_param
  save_params-Holds flow params s law digits valid done =
      let k1 : List ℕ = make_flow_key print flow "fc_1" in
      let k2 : List ℕ = make_flow_key print flow "gain_1" in
      let k3 : List ℕ = make_flow_key print flow "fc_3" in
      let k4 : List ℕ = make_flow_key print flow "gain_3" in
      let r1 : EspErr × DspSettings N R = save_i32 nvs k1 (floats.to_int params.fc_1) s in
      let r2 : EspErr × DspSettings N R = save_i32 nvs k2 (floats.to_int params.gain_1) r1.1 in
      let r3 : EspErr × DspSettings N R = save_i32 nvs k3 (floats.to_int params.fc_3) r2.1 in
      let (ok1, rest1) = and-both (is_ok r1.0) _ done in
      let (ok2, rest2) = and-both (is_ok r2.0) _ rest1 in
      let (ok3, ok4) = and-both (is_ok r3.0) _ rest2 in
      let (m1, h1, t1, o1) = save_i32-Saves nvs content k1 _ s law ok1 in
      let (m2, h2, t2, o2) = save_i32-Saves nvs content k2 _ r1.1 law ok2 in
      let (m3, h3, t3, o3) = save_i32-Saves nvs content k3 _ r2.1 law ok3 in
      let (m4, h4, t4, o4) = save_i32-Saves nvs content k4 _ r3.1 law ok4 in
      let other = flow_key-active print digits flow valid in
      (
        (
          m4,
          o4 k1 (gain_3-fc_1 print digits flow valid)
              ∙ o3 k1 (fc_3-fc_1 print digits flow valid)
              ∙ o2 k1 (gain_1-fc_1 print digits flow valid)
              ∙ h1,
          o4 k2 (gain_3-gain_1 print digits flow valid)
              ∙ o3 k2 (fc_3-gain_1 print digits flow valid)
              ∙ h2,
          o4 k3 (gain_3-fc_3 print digits flow valid) ∙ h3,
          h4,
        ),
        o4 key_active (other "gain_3")
            ∙ o3 key_active (other "fc_3")
            ∙ o2 key_active (other "gain_1")
            ∙ o1 key_active (other "fc_1"),
        t4 ∙ t3 ∙ t2 ∙ t1,
      )

  -- The parameters as they come back: each went through the conversion to an integer.
  abbrev pub rounded : FilterParams R → FilterParams R
  rounded params = record {
    fc_1 = floats.of_int (floats.to_int params.fc_1);
    gain_1 = floats.of_int (floats.to_int params.gain_1);
    fc_3 = floats.of_int (floats.to_int params.fc_3);
    gain_3 = floats.of_int (floats.to_int params.gain_3);
  }

  dsp_settings_get_flow_params-Holds :
      (flow : ℕ) (params : FilterParams R) (s : DspSettings N R)
      → IsDspNvs nvs content
      → is_flow flow ≡ true
      → Holds flow params s
      → dsp_settings_get_flow_params nvs floats print flow s ≡ (some (rounded params), s)
  dsp_settings_get_flow_params-Holds flow params s law valid (there, h1, h2, h3, h4) =
      let back : saved_params nvs content floats print flow s.store ≡ rounded params =
        rw (h1, h2, h3, h4) refl in
      dsp_settings_get_flow_params-saved nvs content floats print flow s law valid there
      ∙ ap (λ p. (some p, s)) back

  -- The calls of the processor when these parameters are set, by the flow that is saved as active.
  abbrev pub told_after :
      ℕ → FilterParams R → Option ℕ → List (ProcessorCall R) → List (ProcessorCall R)
  told_after flow params none told = told
  told_after flow params (some active) told =
      if active == flow then set_params_for_flow flow params ∷ told else told

  -- Only the calls may differ.
  abbrev Told : ℕ → FilterParams R → Option ℕ → DspSettings N R → DspSettings N R → Type 0
  Told flow params active s s' = s' ≡ record s { told = told_after flow params active s.told }

  apply_if_active-Told :
      (flow : ℕ) (params : FilterParams R) (active : Option ℕ) (answer : EspErr × Option ℕ)
      (s : DspSettings N R)
      → Finds nvs content active answer
      → Told flow params active s (apply_if_active nvs floats print flow params (answer, s))
  apply_if_active-Told flow params none (err, none) s found = refl
  apply_if_active-Told flow params none (err, some v) s found = rw found.0 refl
  apply_if_active-Told flow params (some a) answer s found =
      rw found
        (elim (Bool-cases (a == flow)) [ inl same ↦ rw same refl | inr differs ↦ rw differs refl ])

  -- The parameters are there, and the processor knows those of the active flow.
  abbrev pub Reaches : ℕ → FilterParams R → DspSettings N R → Bool × DspSettings N R → Type 0
  Reaches flow params s (ok, s') =
      ok ≡ true
      → (dsp_settings_get_flow_params nvs floats print flow s' ≡ (some (rounded params), s'))
        × (s'.told ≡ told_after flow params (content key_active s.store) s.told)

  apply_if_active-same :
      (flow : ℕ) (params : FilterParams R) (s : DspSettings N R)
      → IsDspNvs nvs content
      → s.mutex ≡ true
      → Told flow params
          (content key_active s.store)
          s
          (apply_if_active nvs floats print flow params (dsp_settings_load_active_flow nvs s))
  unfolding dsp_settings_load_active_flow
  apply_if_active-same flow params s law there =
      ap (apply_if_active nvs floats print flow params)
        (load_i32-opened nvs content key_active s law there)
      ∙ apply_if_active-Told flow params (content key_active s.store)
          (load_opened nvs key_active s.store (nvs.open_read s.store)) s
          (load_opened-Finds nvs content key_active s.store _ law refl)

  after_save-Reaches :
      (flow : ℕ) (params : FilterParams R) (s : DspSettings N R) (r : Bool × DspSettings N R)
      → IsDspNvs nvs content
      → is_flow flow ≡ true
      → (r.0 ≡ true
          → Holds flow params r.1
            × (content key_active r.1.store ≡ content key_active s.store)
            × (r.1.told ≡ s.told))
      → Reaches flow params s (after_save nvs floats print flow params r)
  after_save-Reaches flow params s (false, s') law valid holds done = absurd (is_false done)
  after_save-Reaches flow params s (true, s') law valid holds done =
      let ((there, h1, h2, h3, h4), same, told) = holds refl in
      let after : DspSettings N R = record s' {
        told = told_after flow params (content key_active s'.store) s'.told;
      } in
      subst
        (λ u.
          (dsp_settings_get_flow_params nvs floats print flow u ≡ (some (rounded params), u))
          × (u.told ≡ told_after flow params (content key_active s.store) s.told))
        (sym (apply_if_active-same flow params s' law there))
        (
          dsp_settings_get_flow_params-Holds flow params after law valid (there, h1, h2, h3, h4),
          ap (λ c. told_after flow params c s'.told) same
              ∙ ap (told_after flow params (content key_active s.store)) told,
        )

  -- Once the parameters of a flow are set with success, reading them gives each after its conversion to an integer and
  -- back. The processor is told of them exactly when that flow is the one saved as active; with no active flow saved it
  -- is never told. It holds when the mutex is free and the NVS library keeps what it documents.
  pub dsp_settings_set_flow_params-get :
      (flow : ℕ) (params : FilterParams R) (s : DspSettings N R)
      → IsDspNvs nvs content
      → PrintsDigits print
      → Reaches flow params s (dsp_settings_set_flow_params nvs floats print flow params s)
  unfolding dsp_settings_set_flow_params
  dsp_settings_set_flow_params-get flow params s law digits = elim (Bool-cases (is_flow flow)) [
    | inl valid ↦ rw valid (
        after_save-Reaches flow params s (save_params nvs floats print flow params s) law valid
          (save_params-Holds flow params s law digits valid))
    | inr wrong ↦ rw wrong (λ done. absurd (is_false done))
  ]

-- ===== src/Config/Checks.antt =====
-- `_validate` (src/phono_console/config.py) lets through exactly the valid settings: the lemmas of
-- the sections.
use phono_console.Base.{
  ◌≡◌, refl, ap, ◌≢◌, ◌↔◌, Bool, true, false, ◌||◌, none, List, [], ◌∷◌, arith, All, ℤ, pos, ◌+ℤ◌,
  eq_of_parts,
}
use phono_console.Config.{
  Text, AudioConfig, DetectionConfig, BluetoothConfig, RoutingConfig, SendspinConfig, RuntimeConfig,
  AudioEngineConfig, AmplifierConfig, ControlsConfig,
}
use phono_console.Config.Validity.{
  Check, outside, first_error, is_absolute, all_nonempty, is_ℤ, audio_checks, detection_checks,
  bluetooth_checks, routing_checks, runtime_checks, sendspin_checks, audio_engine_checks,
  amplifier_checks, controls_checks,
}
use phono_console.Config.Valid.{
  Within, IsAbsolute, ValidAudio, ValidDetection, ValidBluetooth, ValidRouting, ValidRuntime,
  ValidSendspin, ValidEngine, ValidAmplifier, ValidControls,
}

-- No check raises.
abbrev pub Passes : List Check → Type 0
Passes checks = first_error checks ≡ none

is_absolute_iff : (t : Text) → (is_absolute t ≡ true) ↔ IsAbsolute t
is_absolute_iff [] = ((λ h. cc), λ h. cc (h.1))
is_absolute_iff (c ∷ cs) = ((λ h. ground arith), λ h. ground arith)

is_ℤ_iff : (a b : ℤ) → (is_ℤ a b ≡ true) ↔ (a ≡ b)
is_ℤ_iff a b = ((λ h. eq_of_parts a b (ground arith)), λ h. ground arith)

pub audio-checks : (a : AudioConfig) → Passes (audio_checks a) ↔ ValidAudio a
unfolding first_error audio_checks
audio-checks a = (
  (λ h. record {
    latency = ground arith;
    rate = ground arith;
    channels = ground (arith, is_ℤ_iff a.channels (pos 1), is_ℤ_iff a.channels (pos 2));
    window = ground arith;
  }),
  (λ v. ground (arith, v.latency, v.rate, v.channels, v.window)),
)

pub detection-checks : (d : DetectionConfig) → Passes (detection_checks d) ↔ ValidDetection d
unfolding first_error detection_checks
detection-checks d = ((λ h. ground arith), (λ v. ground arith))

pub bluetooth-checks : (b : BluetoothConfig) → Passes (bluetooth_checks b) ↔ ValidBluetooth b
unfolding first_error bluetooth_checks ◌+ℤ◌
bluetooth-checks b = ((λ h. ground arith), (λ v. ground arith))

pub routing-checks : (r : RoutingConfig) → Passes (routing_checks r) ↔ ValidRouting r
unfolding first_error routing_checks
routing-checks r = ((λ h. ground arith), (λ v. ground arith))

pub runtime-checks : (r : RuntimeConfig) → Passes (runtime_checks r) ↔ ValidRuntime r
unfolding first_error runtime_checks
runtime-checks r = ((λ h. ground arith), (λ v. ground arith))

pub all_nonempty_iff : (ts : List Text) → (all_nonempty ts ≡ true) ↔ All (λ (t : Text). t ≢ []) ts
all_nonempty_iff [] = ((λ h. tt), λ h. refl)
all_nonempty_iff ([] ∷ ts) = ((λ h. cc), λ h. absurd (h.0 refl))
all_nonempty_iff ((c ∷ cs) ∷ ts) =
    ((λ h. ((λ e. cc), (all_nonempty_iff ts).0 h)), λ h. (all_nonempty_iff ts).1 h.1)

pub sendspin-checks : (s : SendspinConfig) → Passes (sendspin_checks s) ↔ ValidSendspin s
unfolding first_error sendspin_checks
sendspin-checks s = ((λ h. ground arith), (λ v. ground arith))

pub engine-checks : (e : AudioEngineConfig) → Passes (audio_engine_checks e) ↔ ValidEngine e
unfolding first_error audio_engine_checks
engine-checks e = (
  (λ h. ground (arith, is_absolute_iff e.socket_path)),
  (λ v. ground (arith, is_absolute_iff e.socket_path)),
)

pub amplifier-checks : (a : AmplifierConfig) → Passes (amplifier_checks a) ↔ ValidAmplifier a
unfolding first_error amplifier_checks ◌+ℤ◌
amplifier-checks a = (
  (λ h. ground (arith, is_absolute_iff a.cec_device)),
  (λ v. ground (arith, is_absolute_iff a.cec_device)),
)

Passes-All : (cs : List Check) → Passes cs ↔ All (λ (k : Check). k.0 ≡ false) cs
unfolding first_error
Passes-All [] = ((λ h. tt), λ h. refl)
Passes-All ((true, e) ∷ cs) = ((λ h. cc), λ h. cc (h.0))
Passes-All ((false, e) ∷ cs) = ((λ h. (refl, (Passes-All cs).0 h)), λ h. (Passes-All cs).1 h.1)

outside-Within : (lo hi v : ℤ) → (outside lo hi v ≡ false) ↔ Within lo hi v
outside-Within lo hi v = ((λ h. ground arith), λ h. ground arith)

none_of : (a b c : Bool) → ((a || (b || c)) ≡ false) ↔ ((a ≡ false) × (b ≡ false) × (c ≡ false))
none_of a b c = ((λ h. ground arith), λ h. ground arith)

is_ℤ-false : (a b : ℤ) → (is_ℤ a b ≡ false) ↔ (a ≢ b)
is_ℤ-false a b = ((λ h e. cc (h, (is_ℤ_iff a b).1 e)), λ h. ground (arith, is_ℤ_iff a b))

pub controls-checks : (c : ControlsConfig) → Passes (controls_checks c) ↔ ValidControls c
unfolding controls_checks
controls-checks c = (
  (λ h.
      let (pins, (repeats, (step, (encoder, (button, _))))) =
        (Passes-All (controls_checks c)).0 h in
      let (a, b, p) = (none_of _ _ _).0 pins in
      let (ab, ap, bp) = (none_of _ _ _).0 repeats in
      record {
        pin_a = (outside-Within _ _ _).0 a;
        pin_b = (outside-Within _ _ _).0 b;
        pin_button = (outside-Within _ _ _).0 p;
        a_not_b = (is_ℤ-false _ _).0 ab;
        a_not_button = (is_ℤ-false _ _).0 ap;
        b_not_button = (is_ℤ-false _ _).0 bp;
        step = (outside-Within _ _ _).0 step;
        encoder_bounce = (outside-Within _ _ _).0 encoder;
        button_bounce = (outside-Within _ _ _).0 button;
      }),
  (λ v. (Passes-All (controls_checks c)).1 (
    (none_of _ _ _).1 (
      (outside-Within _ _ _).1 v.pin_a,
      (outside-Within _ _ _).1 v.pin_b,
      (outside-Within _ _ _).1 v.pin_button,
    ),
    (
      (none_of _ _ _).1 (
        (is_ℤ-false _ _).1 v.a_not_b,
        (is_ℤ-false _ _).1 v.a_not_button,
        (is_ℤ-false _ _).1 v.b_not_button,
      ),
      (
        (outside-Within _ _ _).1 v.step,
        ((outside-Within _ _ _).1 v.encoder_bounce, ((outside-Within _ _ _).1 v.button_bounce, tt)),
      ),
    ),
  )),
)

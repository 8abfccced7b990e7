-- ===== src/Config/Validation.antt =====
-- `_validate` (src/phono_console/config.py) as a whole, and what its verdict means for the parts
-- of the console that use the settings.
use phono_console.Base.{
  ◌≡◌, refl, ◌≢◌, ◌↔◌, true, false, not, none, List, [], ◌∷◌, ◌++◌, arith, All,
}
use phono_console.Config.{Config, Text}
use phono_console.Config.Validity.{
  ConfigError, Check, first_error, checks, validate, audio_checks, detection_checks,
  bluetooth_checks, routing_checks, runtime_checks, music_assistant_checks, sendspin_checks,
  audio_engine_checks, amplifier_checks, all_nonempty,
}
use phono_console.Config.Valid.{ValidConfig}
use phono_console.Config.Checks.{
  Passes, audio-checks, detection-checks, bluetooth-checks, routing-checks, runtime-checks,
  all_nonempty_iff, sendspin-checks, engine-checks, amplifier-checks, controls-checks,
}

Passes-append : (xs ys : List Check) → Passes (xs ++ ys) ↔ (Passes xs × Passes ys)
unfolding first_error
Passes-append [] ys = ((λ h. (refl, h)), λ h. h.1)
Passes-append ((true, e) ∷ xs) ys = ((λ h. cc), λ h. cc (h.0))
Passes-append ((false, e) ∷ xs) ys =
    ((λ h. (Passes-append xs ys).0 h), λ h. (Passes-append xs ys).1 h)

players-checks :
    (ts : List Text)
    → Passes ((not (all_nonempty ts), ConfigError.empty_player) ∷ [])
      ↔ All (λ (t : Text). t ≢ []) ts
unfolding first_error
players-checks ts =
    ((λ h. (all_nonempty_iff ts).0 (ground arith)), λ h. rw ((all_nonempty_iff ts).1 h) refl)

-- `_validate` lets a configuration through exactly if every section satisfies its documented
-- conditions.
pub validate-ValidConfig : (c : Config) → (validate c ≡ none) ↔ ValidConfig c
unfolding validate checks music_assistant_checks
validate-ValidConfig c = (
  (λ h.
      let (h1, r1) = (Passes-append (audio_checks c.audio) _).0 h in
      let (h2, r2) = (Passes-append (detection_checks c.detection) _).0 r1 in
      let (h3, r3) = (Passes-append (bluetooth_checks c.bluetooth) _).0 r2 in
      let (h4, r4) = (Passes-append (routing_checks c.routing) _).0 r3 in
      let (h5, r5) = (Passes-append (runtime_checks c.runtime) _).0 r4 in
      let (h6, r6) = (Passes-append (music_assistant_checks c.music_assistant) _).0 r5 in
      let (h7, r7) = (Passes-append (sendspin_checks c.sendspin) _).0 r6 in
      let (h8, r8) = (Passes-append (audio_engine_checks c.audio_engine) _).0 r7 in
      let (h9, h10) = (Passes-append (amplifier_checks c.amplifier) _).0 r8 in
      record {
        audio = (audio-checks c.audio).0 h1;
        detection = (detection-checks c.detection).0 h2;
        bluetooth = (bluetooth-checks c.bluetooth).0 h3;
        routing = (routing-checks c.routing).0 h4;
        runtime = (runtime-checks c.runtime).0 h5;
        players = (players-checks c.music_assistant.whole_house_players).0 h6;
        sendspin = (sendspin-checks c.sendspin).0 h7;
        engine = (engine-checks c.audio_engine).0 h8;
        amplifier = (amplifier-checks c.amplifier).0 h9;
        controls = (controls-checks c.controls).0 h10;
      }),
  (λ v. (Passes-append (audio_checks c.audio) _).1 (
    (audio-checks c.audio).1 v.audio,
    (Passes-append (detection_checks c.detection) _).1 (
      (detection-checks c.detection).1 v.detection,
      (Passes-append (bluetooth_checks c.bluetooth) _).1 (
        (bluetooth-checks c.bluetooth).1 v.bluetooth,
        (Passes-append (routing_checks c.routing) _).1 (
          (routing-checks c.routing).1 v.routing,
          (Passes-append (runtime_checks c.runtime) _).1 (
            (runtime-checks c.runtime).1 v.runtime,
            (Passes-append (music_assistant_checks c.music_assistant) _).1 (
              (players-checks c.music_assistant.whole_house_players).1 v.players,
              (Passes-append (sendspin_checks c.sendspin) _).1 (
                (sendspin-checks c.sendspin).1 v.sendspin,
                (Passes-append (audio_engine_checks c.audio_engine) _).1 (
                  (engine-checks c.audio_engine).1 v.engine,
                  (Passes-append (amplifier_checks c.amplifier) _).1 (
                    (amplifier-checks c.amplifier).1 v.amplifier,
                    (controls-checks c.controls).1 v.controls,
                  ),
                ),
              ),
            ),
          ),
        ),
      ),
    ),
  )),
)

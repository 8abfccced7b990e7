-- ===== src/Controller/Modes.antt =====
-- `Controller.tick`, lines 234-280 of src/phono_console/controller.py: Music Assistant's state,
-- the inherited output mode and the expiry of the sticky Downstairs mode.
use phono_console.Base.{
  ℕ, ◌+◌, String, ◌⊎◌, inl, inr, Bool, true, ◌&&◌, Option, none, some, List, [], ◌∷◌, ◌++◌, leb,
  if◌then◌else◌,
}
use phono_console.Policy.{PhonoOutputMode, local, downstairs, distributed_bluetooth}
use phono_console.Controller.{
  Settings, Controller, Environment, Action, degraded, report, music_assistant, inherit_mode,
  refresh_mode, expire_mode, on_route, when,
}
use phono_console.Controller.Sense.{Sensing}

pub record Modes : Type 0 where
  pub ma_playing : Bool
  pub output_mode : PhonoOutputMode

-- A failure of the telemetry reserves the output.
abbrev pub playing_or_reserved : Bool ⊎ String → Bool × List Action
playing_or_reserved (inl b) = (b, [])
playing_or_reserved (inr message) = (true, report music_assistant degraded message ∷ [])

unfoldable pub inherits : Settings → Controller → Sensing → Bool
inherits s c x = x.phono_signal_present && (on_route c.route distributed_bluetooth && s.has_inherit)

abbrev is_due : Option ℕ → ℕ → ℕ → Bool
is_due none interval now = true
is_due (some last) interval now = leb (last + interval) now

-- Lines 255-280: Downstairs is refreshed while a record plays, and expires after a pause.
unfoldable pub stick :
    Settings → ℕ → Bool → PhonoOutputMode → Controller → Controller × PhonoOutputMode × List Action
stick s now active local c =
    (record c { phono_mode_inactive_since = none; phono_mode_last_refresh = none }, local, [])
stick s now active downstairs c =
    if active
    then (if s.has_refresh && is_due c.phono_mode_last_refresh s.refresh_interval now
        then (
          record c { phono_mode_inactive_since = none; phono_mode_last_refresh = some now },
          downstairs,
          refresh_mode ∷ [],
        )
        else (record c { phono_mode_inactive_since = none }, downstairs, []))
    else elim c.phono_mode_inactive_since [
      | none ↦ (record c { phono_mode_inactive_since = some now }, downstairs, [])
      | some since ↦
          if leb (since + s.phono_mode_sticky) now
          then (
            record c { phono_mode_inactive_since = none; phono_mode_last_refresh = none },
            local,
            when s.has_expire (expire_mode ∷ []),
          )
          else (c, downstairs, [])
    ]

unfoldable pub modes :
    Settings → Environment → ℕ → Controller → Sensing → Controller × Modes × List Action
unfolding stick
modes s e now c x =
    let (playing, reserved) = playing_or_reserved e.console_playing in
    let inherit = inherits s c x in
    let (c', mode, actions) = stick s now x.phono_active (e.output_mode inherit) c in
    (
      c',
      record { ma_playing = playing; output_mode = mode },
      reserved ++ (when inherit (inherit_mode ∷ []) ++ actions),
    )

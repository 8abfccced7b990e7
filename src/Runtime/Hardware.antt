-- ===== src/Runtime/Hardware.antt =====
-- src/phono_console/runtime.py: the volume and press actions of the rotary encoder, of Bluetooth and of
-- the route boundary. They compose Controls, Amplifier, Music and State.
--
-- The receiver's replies, the players and the amplifier's reported volume are arguments; `none` is an
-- exception of a call.
pub mod Turns
use phono_console.Base.{
  ℕ, zero, suc, ◌+◌, ◌-◌, ◌*◌, ◌/◌, ◌%◌, ◌^◌, ◌≤◌, ◌<◌, String, ◌≡◌, refl, sym, ap, ◌∙◌, subst, ◌≢◌,
  ◌↔◌, ◌⊎◌, inl, inr, Bool, true, false, not, ◌&&◌, ◌||◌, Option, none, some, List, [], ◌∷◌, ◌++◌,
  map, arith, ltb, leb, ◌==◌, if◌then◌else◌, leb→le, ==_iff, Bool-cases, Option-cases, is_some,
  length, take, drop, length-append, length-drop, All, All-append, take-append, drop-append,
  take-append-drop, length-take, take-add, take_last, drop-append_le, drop-drop, take_last-append,
  All-take, All-drop, ℤ, pos, negsuc, pos_part, neg_part, sub_ℕ, ◌+ℤ◌, ◌-ℤ◌, ◌≤ℤ◌, leb_ℤ, ltb_ℤ,
  +ℤ_parts, -ℤ_parts, eq_of_parts, int_laws,
}
use phono_console.Amplifier.{
  AmplifierConfig, SetVolume, disabled, invalidated, reported, set_volume,
}
use phono_console.Controls.{
  VolumeTarget, downstairs, no_target, volume_target_for_route, PressCommand, phono_downstairs,
  phono_local, stop_bluetooth, stop_ma, no_press, press_command_for_route,
}
use phono_console.Controller.{Status}
use phono_console.Policy.{
  Route, idle, local_phono, local_bluetooth, ma_playback, distributed_phono, distributed_bluetooth,
  is_route, OutputTarget, PhonoOutputMode, console,
}
use phono_console.State.{StateStore}
use phono_console.Music.{Player, clamped}
use phono_console.Music.Players.{set_group_volume, get_player_volume}

pub data Action : Type 0 where
  amplifier_set : ℕ → Action
  group_set : ℕ → Action
  volume_saved : ℕ → Action
  volume_ignored button_ignored : Route → Action
  bluetooth_paused : Action
  target_stopped : Action
  output_chosen : PhonoOutputMode → Action

-- What the actions use: the amplifier with its two replies, the players that Music Assistant knows,
-- the name of the distribution target and the volume that the amplifier last reported.
pub record Devices : Type 0 where
  pub amplifier : AmplifierConfig
  pub first_reply : Option ℕ
  pub second_reply : Option ℕ
  pub players : List Player
  pub target : String
  pub reported_volume : Option ℕ

-- The variable `local_phono_volume`, the calls in order, and whether the action raised.
abbrev pub Result : Type 0
Result = ℕ × List Action × Bool

abbrev pub route_of : Option Status → Route
route_of none = idle
route_of (some status) = status.route

abbrev answers : SetVolume → Bool
answers disabled = false
answers (invalidated sent) = false
answers (reported sent volume muted) = true

-- Whether `amplifier.set_volume` returns.
unfoldable pub amplifier_answers : Devices → ℤ → Bool
unfolding set_volume
amplifier_answers x volume = answers (set_volume x.amplifier volume x.first_reply x.second_reply)

-- `amplifier_volume_action`; a volume of Music Assistant is not saved.
unfoldable pub amplifier_volume_action : Devices → Option Status → Bool → ℕ → ℕ → Result
unfolding amplifier_answers
amplifier_volume_action x status from_ma volume saved =
    if not (amplifier_answers x (pos volume))
    then (saved, amplifier_set volume ∷ [], true)
    else (if not from_ma && is_route (route_of status) local_phono
        then (volume, amplifier_set volume ∷ volume_saved volume ∷ [], false)
        else (saved, amplifier_set volume ∷ [], false))

-- The amplifier, and whether its call raised.
only_amplifier : Devices → ℕ → ℕ → Result
unfolding amplifier_answers
only_amplifier x volume saved =
    (saved, amplifier_set volume ∷ [], not (amplifier_answers x (pos volume)))

-- `bluetooth_volume_action`
unfoldable pub bluetooth_volume_action : Devices → Option Status → ℕ → ℕ → Result
unfolding only_amplifier set_group_volume clamped
bluetooth_volume_action x status volume saved =
    if is_route (route_of status) distributed_bluetooth
    then (if (set_group_volume x.players x.target (pos volume)).1
        then (saved, group_set (clamped (pos volume)) ∷ [], false)
        else only_amplifier x volume saved)
    else (if is_route (route_of status) local_bluetooth
        then only_amplifier x volume saved
        else (saved, [], false))

-- `activate_route`, given Music Assistant's last volume of the console.
unfoldable pub activate_route : Devices → Option ℕ → Route → ℕ → Result
unfolding only_amplifier
activate_route x console_volume route saved = elim route [
  | local_phono ↦ only_amplifier x saved saved
  | idle ↦ (saved, [], false)
  | local_bluetooth ↦ (saved, [], false)
  | _ ↦ elim console_volume [ none ↦ (saved, [], false) | some v ↦ only_amplifier x v saved ]
]

abbrev or_fifty : Option ℕ → ℕ
or_fifty none = 50
or_fifty (some v) = v

unfoldable pub turn_volume : VolumeTarget → Devices → Option Status → ℤ → ℕ → Result
unfolding amplifier_volume_action set_group_volume get_player_volume clamped
turn_volume downstairs x status delta saved = elim (get_player_volume x.players x.target) [
  | none ↦ (saved, [], true)
  | some current ↦
      let volume = clamped (pos current +ℤ delta) in
      (saved, group_set volume ∷ [], not (set_group_volume x.players x.target (pos volume)).1)
]
turn_volume no_target x status delta saved = (saved, volume_ignored (route_of status) ∷ [], false)
turn_volume VolumeTarget.local x status delta saved =
    let current =
      if is_route (route_of status) local_phono then saved else or_fifty x.reported_volume in
    amplifier_volume_action x status false (clamped (pos current +ℤ delta)) saved

-- `hardware_volume_action`
unfoldable pub hardware_volume_action : Devices → Option Status → ℤ → ℕ → Result
unfolding turn_volume
hardware_volume_action x status delta saved =
    turn_volume (volume_target_for_route (route_of status)) x status delta saved

-- `hardware_press_action`: what the press does. The chosen output is carried out by
-- `set_output_target` of the store and `output_mode_action`.
unfoldable pub hardware_press_action : Option Status → List Action
hardware_press_action status = elim (press_command_for_route (route_of status)) [
  | phono_downstairs ↦ output_chosen PhonoOutputMode.downstairs ∷ []
  | phono_local ↦ output_chosen PhonoOutputMode.local ∷ []
  | stop_bluetooth ↦
      if is_route (route_of status) distributed_bluetooth
      then target_stopped ∷ bluetooth_paused ∷ []
      else bluetooth_paused ∷ []
  | stop_ma ↦ target_stopped ∷ []
  | no_press ↦ button_ignored (route_of status) ∷ []
]

-- The start of `run_daemon`: the volume in the file, if it is a number, else the configured one.
unfoldable pub restore_volume : ℕ → Option (Option ℤ) → ℕ
unfolding clamped
restore_volume configured (some (some v)) = clamped v
restore_volume configured _ = configured

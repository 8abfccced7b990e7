-- ===== src/Amplifier.antt =====
-- src/phono_console/amplifier.py: the volume scales and `CecAmplifier.set_volume`.
--
-- Python's `round` on the float quotients is the rounding of the exact quotient to the nearest
-- integer, ties to even: the floats of these small quotients are too near the exact values to
-- cross a tie, and the ties themselves are exact. The replies of the receiver are outside: the
-- model gets the two status bytes that `_read_match` returns, where `none` is an exception.
pub mod Volume
pub mod Keys
pub mod Power
pub mod Tests
use phono_console.Base.{
  ℕ, zero, suc, ◌+◌, ◌-◌, ◌*◌, ◌/◌, ◌%◌, Bool, not, Option, none, some, List, [], ◌∷◌, ◌++◌, ltb,
  leb, ◌==◌, if◌then◌else◌, ℤ, pos, negsuc,
}

pub record AmplifierConfig : Type 0 where
  pub enabled : Bool
  pub volume_min : ℕ
  pub volume_max : ℕ

-- The nearest integer to a / b, ties to even.
unfoldable pub round_div : ℕ → ℕ → ℕ
round_div a b =
    if ltb (2 * (a % b)) b
    then a / b
    else (if ltb b (2 * (a % b)) then a / b + 1 else a / b + a / b % 2)

-- `max(lo, min(hi, volume))`
unfoldable pub clamp : ℕ → ℕ → ℤ → ℕ
clamp lo hi (pos v) = if ltb v lo then lo else (if ltb hi v then hi else v)
clamp lo hi (negsuc v) = lo

abbrev pub span : AmplifierConfig → ℕ
span c = c.volume_max - c.volume_min

-- Music Assistant's 1..100 onto the safe amplifier range.
unfoldable pub logical_to_cec : AmplifierConfig → ℤ → ℕ
logical_to_cec c volume = round_div (c.volume_min * 99 + (clamp 1 100 volume - 1) * span c) 99

-- A reported amplifier volume back onto Music Assistant's scale.
unfoldable pub cec_to_logical : AmplifierConfig → ℤ → ℕ
cec_to_logical c volume =
    round_div (span c + (clamp c.volume_min c.volume_max volume - c.volume_min) * 99) (span c)

pub data Key : Type 0 where
  up down mute : Key

-- Messages to the receiver: give audio status (71), user control pressed (44) and released (45).
pub data Command : Type 0 where
  give_audio_status release : Command
  press : Key → Command

-- The status byte: `status & 0x80` and `status & 0x7F`.
abbrev pub is_muted : ℕ → Bool
is_muted status = leb 128 (status % 256)

abbrev pub level_of : ℕ → ℕ
level_of status = status % 128

pub presses : ℕ → Key → List Command
presses zero key = []
presses (suc n) key = press key ∷ release ∷ presses n key

abbrev pub toggle_mute : List Command
toggle_mute = press mute ∷ release ∷ []

-- Lines 205-210: one press for each step of the difference.
unfoldable pub level_keys : ℕ → ℕ → List Command
level_keys current target =
    if ltb current target then presses (target - current) up else presses (current - target) down

-- Lines 196-211: the key presses for a requested volume, from the receiver's status.
unfoldable pub adjust : AmplifierConfig → ℕ → ℕ → List Command
adjust c requested status =
    if requested == 0
    then (if is_muted status then [] else toggle_mute)
    else ((if is_muted status then toggle_mute else [])
        ++ level_keys (level_of status) (logical_to_cec c (pos requested)))

pub data SetVolume : Type 0 where
  disabled : SetVolume
  -- A read raised: the session is invalidated after these commands.
  invalidated : List Command → SetVolume
  -- The commands, the reported logical volume and whether the receiver is muted.
  reported : List Command → ℕ → Bool → SetVolume

-- The two replies, or an exception.
unfoldable pub set_volume : AmplifierConfig → ℤ → Option ℕ → Option ℕ → SetVolume
set_volume c target first second = if not c.enabled then disabled else elim first [
  | none ↦ invalidated (give_audio_status ∷ [])
  | some status ↦
      let sent =
        give_audio_status ∷ (adjust c (clamp 0 100 target) status ++ (give_audio_status ∷ [])) in
      elim second [
        | none ↦ invalidated sent
        | some result ↦
            reported sent (if is_muted result then 0 else cec_to_logical c (pos (level_of result)))
              (is_muted result)
      ]
]

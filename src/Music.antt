-- ===== src/Music.antt =====
-- src/phono_console/ma.py: `MusicAssistantState`, the client of Music Assistant.
--
-- The children: Requests (the play requests that are in flight or settling), Console (the connection
-- and the playback state of the console's player) and Players (calls for named players). The client
-- library is outside: whether a call raises, and the players that it knows, are arguments. A task is
-- known by the number of its request, and whether it is done is a field.
pub mod Requests
pub mod Console
pub mod Players
mod Tests
use text.Mathlib.Text.{◌==◌ as str_eq}
use phono_console.Base.{
  ℕ, zero, suc, ◌+◌, ◌-◌, ◌*◌, ◌/◌, ◌%◌, ◌^◌, ◌≤◌, ◌<◌, String, ◌≡◌, refl, sym, ap, ◌∙◌, subst, ◌≢◌,
  ◌↔◌, ◌⊎◌, inl, inr, Bool, true, false, not, ◌&&◌, ◌||◌, Option, none, some, List, [], ◌∷◌, ◌++◌,
  map, arith, ltb, leb, ◌==◌, if◌then◌else◌, leb→le, ==_iff, Bool-cases, Option-cases, is_some,
  length, take, drop, length-append, length-drop, All, All-append, take-append, drop-append,
  take-append-drop, length-take, take-add, take_last, drop-append_le, drop-drop, take_last-append,
  All-take, All-drop, ℤ, pos, negsuc, pos_part, neg_part, sub_ℕ, ◌+ℤ◌, ◌-ℤ◌, ◌≤ℤ◌, leb_ℤ, ltb_ℤ,
  +ℤ_parts, -ℤ_parts, eq_of_parts, int_laws,
}

pub data PlaybackState : Type 0 where
  playing paused stopped : PlaybackState

pub record Player : Type 0 where
  pub player_id : String
  pub name : String
  pub available : Bool
  pub playback_state : PlaybackState
  pub volume_level : Option ℤ
  pub group_volume : Option ℤ

-- `_find_named_player`
unfoldable pub find_named_player : String → List Player → Option Player
find_named_player name [] = none
find_named_player name (p ∷ ps) =
    let rest = find_named_player name ps in
    if str_eq p.player_id name || str_eq p.name name then some p else rest

abbrev pub is_playing : PlaybackState → Bool
is_playing playing = true
is_playing _ = false

-- `player_is_playing`; without a client no player is known.
unfoldable pub player_is_playing : Option (List Player) → String → Bool
unfolding find_named_player
player_is_playing none name = false
player_is_playing (some players) name = elim (find_named_player name players) [
  | none ↦ false
  | some p ↦ p.available && is_playing p.playback_state
]

-- `max(0, min(100, int(volume)))`
unfoldable pub clamped : ℤ → ℕ
clamped (pos n) = if ltb n 100 then n else 100
clamped (negsuc n) = 0

abbrev pub first_of {ℓ} : {A : Type ℓ} → Option A → Option A → Option A
first_of (some a) b = some a
first_of none b = b

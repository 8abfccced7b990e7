-- ===== src/Music/Players.antt =====
-- `MusicAssistantState` (src/phono_console/ma.py): the calls for named players. Where a method first
-- connects, the first argument is the exception of that.
use phono_console.Base.{
  ℕ, String, ◌⊎◌, inl, inr, Bool, true, false, Option, none, some, List, [], ◌∷◌, ◌++◌, ℤ,
}
use phono_console.Music.{Player, find_named_player, clamped, first_of}

pub data Call : Type 0 where
  -- `player_queues.play_media`, `player_queues.stop` and `players.group_volume`
  play_media stop : String → Call
  group_volume : String → ℕ → Call
  player_missing : String → Call

-- The loop over the names: the calls, and the players that were told or the exception.
unfoldable pub tell :
    (String → Call)
    → (String → Option String)
    → List Player
    → List String
    → List String
    → List Call × (String ⊎ List String)
unfolding find_named_player
tell call raises known told [] = ([], inr told)
tell call raises known told (name ∷ names) =
    elim (find_named_player name known) as (λ _. List Call × (String ⊎ List String)) [
      | none ↦
          let (calls, result) = tell call raises known told names in
          (player_missing name ∷ calls, result)
      | some p ↦ elim (raises p.player_id) [
        | some error ↦ (call p.player_id ∷ [], inl error)
        | none ↦
            let (calls, result) = tell call raises known (told ++ (p.player_id ∷ [])) names in
            (call p.player_id ∷ calls, result)
      ]
    ]

unfoldable pub told_after :
    Option String → List Call × (String ⊎ List String) → List Call × (String ⊎ List String)
told_after none r = r
told_after (some error) r = ([], inl error)

-- `_play_vinyl_source_once`, less its events
unfoldable pub play_vinyl_source_once :
    Option String
    → (String → Option String)
    → List Player
    → List String
    → List Call × (String ⊎ List String)
unfolding tell told_after
play_vinyl_source_once refused raises known names =
    told_after refused (tell play_media raises known [] names)

-- `stop_players`, after it has invalidated the play requests
unfoldable pub stop_players :
    Option String
    → (String → Option String)
    → List Player
    → List String
    → List Call × (String ⊎ List String)
unfolding tell told_after
stop_players refused raises known names = told_after refused (tell stop raises known [] names)

-- `set_group_volume`, whether the player was found
unfoldable pub set_group_volume : List Player → String → ℤ → List Call × Bool
unfolding find_named_player clamped
set_group_volume known name volume = elim (find_named_player name known) [
  | none ↦ (player_missing name ∷ [], false)
  | some p ↦ (group_volume p.player_id (clamped volume) ∷ [], true)
]

-- `get_player_volume`
unfoldable pub get_player_volume : List Player → String → Option ℕ
unfolding find_named_player clamped
get_player_volume known name = elim (find_named_player name known) [
  | none ↦ none
  | some p ↦ elim (first_of p.group_volume p.volume_level) [
    | none ↦ none
    | some v ↦ some (clamped v)
  ]
]

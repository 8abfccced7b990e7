-- ===== src/Music/Tests.antt =====
-- Tests of `MusicAssistantState` (src/phono_console/ma.py), and the properties at concrete calls.
use phono_console.Base.{◌≡◌, refl, inr, true, false, none, some, List, [], ◌∷◌, arith, pos, negsuc}
use phono_console.Music.{Player, playing, player_is_playing}
use phono_console.Music.Requests.{Key, PlayRequests, play_vinyl_source, same_key}
use phono_console.Music.Requests.Coalescing.{
  Event, asked, finished, failed, submissions, calm, submitted_once, happen,
}
use phono_console.Music.Console.{Console, initial, console_is_playing, connect_for_status}
use phono_console.Music.Console.Reserved.{
  polled, attempt_failed, answers, all_are, output_reserved_lem,
}
use phono_console.Music.Console.Retry.{any_starts, after_polls, failures, starts, failures-waits}
use phono_console.Music.Players.{stop_players, stop, player_missing}

abbrev kitchen : Player
kitchen = record {
  player_id = "p1";
  name = "Kitchen";
  available = true;
  playback_state = playing;
  volume_level = some (pos 130);
  group_volume = some (negsuc 4);
}

abbrev empty : PlayRequests
empty = record { entries = []; sequence = 0 }

abbrev vinyl : Key
vinyl = ("console", "Kitchen" ∷ [])

abbrev other_key : Key
other_key = ("console", "Hall" ∷ [])

-- The table is asked again, the first request is done, and another source is played.
abbrev busy : List Event
busy =
    asked 101 vinyl ∷ finished 1 ∷ asked 104 other_key ∷ failed other_key 2 ∷ asked 109 vinyl ∷ []

submitted_once_example : submissions 10 vinyl (asked 100 vinyl ∷ busy) empty ≡ 1
unfolding play_vinyl_source calm same_key
submitted_once_example = submitted_once 10 100 1 vinyl none busy empty refl refl

-- After the timeout the request is made again.
retried_test : submissions 10 vinyl (asked 100 vinyl ∷ finished 1 ∷ asked 110 vinyl ∷ []) empty ≡ 2
unfolding submissions happen
retried_test = refl

-- A request that is still in flight is not repeated.
in_flight_test : submissions 10 vinyl (asked 100 vinyl ∷ asked 200 vinyl ∷ []) empty ≡ 1
unfolding submissions happen
in_flight_test = refl

-- Telemetry was there, and the console's player was playing.
abbrev heard : Console
heard = (console_is_playing 5 "Kitchen" (kitchen ∷ []) (connect_for_status 1 none 0 initial).0).0

heard_test : heard.last_console_playing ≡ true × heard.last_console_volume ≡ some 100
unfolding console_is_playing connect_for_status
heard_test = (refl, refl)

abbrev lost : Console
lost = record heard { ready = false }

output_reserved_lem_example :
    all_are lost.last_console_playing (
      answers 1 "Kitchen"
        (polled 6 [] ∷ attempt_failed "refused" 7 ∷ polled 9 (kitchen ∷ []) ∷ [])
        lost)
    ≡ true
unfolding console_is_playing connect_for_status
output_reserved_lem_example =
    output_reserved_lem 1 "Kitchen"
      (polled 6 [] ∷ attempt_failed "refused" 7 ∷ polled 9 (kitchen ∷ []) ∷ []) lost refl

-- The console after a fourth failure, at 100.
abbrev failed_again : Console
failed_again =
    (connect_for_status 1 (some "refused") 100 (failures 1 "refused" (1 ∷ 3 ∷ 7 ∷ []) initial)).0

failures-waits_example :
    (any_starts "Kitchen" ((101, []) ∷ (107, []) ∷ []) failed_again ≡ false)
    × (starts
          (console_is_playing 108 "Kitchen" []
            (after_polls "Kitchen" ((101, []) ∷ (107, []) ∷ []) failed_again)).2
        ≡ true)
failures-waits_example =
    failures-waits 1 "refused" "Kitchen" (1 ∷ 3 ∷ 7 ∷ []) 100 108 [] ((101, []) ∷ (107, []) ∷ [])
      (omega arith)

player_is_playing_test : player_is_playing (some (kitchen ∷ [])) "p1" ≡ true
unfolding player_is_playing
player_is_playing_test = refl

stop_players_test :
    stop_players none (λ p. none) (kitchen ∷ []) ("Hall" ∷ "Kitchen" ∷ [])
    ≡ (player_missing "Hall" ∷ stop "p1" ∷ [], inr ("p1" ∷ []))
unfolding stop_players
stop_players_test = refl

-- ===== src/Music/Console/Reserved.antt =====
-- `MusicAssistantState.console_is_playing` (src/phono_console/ma.py): what the controller is told
-- while the connection is lost.
use phono_console.Detector.{same_bool}
use phono_console.Base.{
  ℕ, String, ◌≡◌, refl, Bool, true, false, not, ◌&&◌, some, List, [], ◌∷◌, arith,
}
use phono_console.Music.{Player}
use phono_console.Music.Console.{Console, is_ready, connect_for_status, console_is_playing}

-- What happens while the connection is lost: the controller asks, and an attempt to connect fails.
pub data Round : Type 0 where
  polled : ℕ → List Player → Round
  attempt_failed : String → ℕ → Round

-- The answers that the controller gets.
unfoldable pub answers : ℕ → String → List Round → Console → List Bool
unfolding console_is_playing connect_for_status
answers second name [] c = []
answers second name (polled now players ∷ rounds) c =
    let r = console_is_playing now name players c in r.1 ∷ answers second name rounds r.0
answers second name (attempt_failed error now ∷ rounds) c =
    answers second name rounds (connect_for_status second (some error) now c).0

unfoldable pub all_are : Bool → List Bool → Bool
all_are b [] = true
all_are b (x ∷ xs) = same_bool x b && all_are b xs

-- Not ready, and the last state of the console's player.
keeps : Bool → Console → Bool
keeps b c = not (is_ready c) && same_bool c.last_console_playing b

keeps_last : (c : Console) → is_ready c ≡ false → keeps c.last_console_playing c ≡ true
unfolding keeps
keeps_last c h = ground arith

polled-keeps :
    (b : Bool) (now : ℕ) (name : String) (players : List Player) (c : Console)
    → keeps b c ≡ true
    → keeps b (console_is_playing now name players c).0
        && same_bool (console_is_playing now name players c).1 b
      ≡ true
unfolding keeps console_is_playing
polled-keeps b now name players c k = ground arith

failed-keeps :
    (b : Bool) (second : ℕ) (error : String) (now : ℕ) (c : Console)
    → keeps b c ≡ true
    → keeps b (connect_for_status second (some error) now c).0 ≡ true
unfolding keeps connect_for_status
failed-keeps b second error now c k = ground arith

keeps-answers :
    (b : Bool) (second : ℕ) (name : String) (rounds : List Round) (c : Console)
    → keeps b c ≡ true
    → all_are b (answers second name rounds c) ≡ true
unfolding answers all_are
keeps-answers b second name [] c k = refl
keeps-answers b second name (polled now players ∷ rounds) c k =
    let h = polled-keeps b now name players c k in
    let rest =
      keeps-answers b second name rounds (console_is_playing now name players c).0
        (ground (arith, h)) in
    ground (arith, h, rest)
keeps-answers b second name (attempt_failed error now ∷ rounds) c k =
    keeps-answers b second name rounds (connect_for_status second (some error) now c).0
      (failed-keeps b second error now c k)

-- From the moment the listener is not ready, and until an attempt to connect succeeds, the controller
-- is told the last state that was seen: an output that was playing stays reserved.
pub output_reserved_lem :
    (second : ℕ) (name : String) (rounds : List Round) (c : Console)
    → is_ready c ≡ false
    → all_are c.last_console_playing (answers second name rounds c) ≡ true
output_reserved_lem second name rounds c h =
    keeps-answers c.last_console_playing second name rounds c (keeps_last c h)

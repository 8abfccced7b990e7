-- ===== src/Capture/Failures.antt =====
-- `ArecordLevelMonitor.read_pcm` (src/phono_console/alsa.py): how it reports failures and waits.
use text.Mathlib.Text.{◌==◌ as str_eq}
use text.Mathlib.TextEquality.{eq_iff}
use phono_console.Base.{
  ℕ, ◌+◌, ◌<◌, String, ◌≡◌, refl, Bool, true, false, not, ◌&&◌, Option, none, some, List, [], ◌∷◌,
  ◌++◌, arith, leb, is_some, All,
}
use phono_console.Capture.{
  reap, Capture, Pipe, Effect, spawned, read_windows, read_pcm, record_failure,
}

-- The effects of a series of reads at these times whose start of the child fails with this message.
unfoldable pub failing : Bool → ℕ → String → Pipe → List ℕ → Capture → List Effect
unfolding read_pcm
failing stereo limit error pipe [] c = []
failing stereo limit error pipe (t ∷ ts) c =
    let r = read_pcm stereo limit (some error) pipe t c in
    r.2 ++ failing stereo limit error pipe ts r.0

known_failure :
    (stereo : Bool) (limit : ℕ) (error : String) (pipe : Pipe) (t : ℕ) (c : Capture)
    → c.process ≡ none
    → c.last_error ≡ some error
    → (read_pcm stereo limit (some error) pipe t c).2 ≡ []
      × (read_pcm stereo limit (some error) pipe t c).0.process ≡ none
      × (read_pcm stereo limit (some error) pipe t c).0.last_error ≡ some error
unfolding read_pcm reap record_failure
known_failure stereo limit error pipe t c idle known =
    let same : str_eq error error ≡ true = (eq_iff error error).1 refl in
    (ground (arith, same), ground (arith, same), ground (arith, same))

-- A failure to start the child that was reported is not reported again while it repeats, whenever
-- the reads come.
pub failing_quiet :
    (stereo : Bool) (limit : ℕ) (error : String) (pipe : Pipe) (ts : List ℕ) (c : Capture)
    → c.process ≡ none
    → c.last_error ≡ some error
    → failing stereo limit error pipe ts c ≡ []
unfolding failing
failing_quiet stereo limit error pipe [] c idle known = refl
failing_quiet stereo limit error pipe (t ∷ ts) c idle known =
    let r = known_failure stereo limit error pipe t c idle known in
    rw (r.0) (
      failing_quiet stereo limit error pipe ts (read_pcm stereo limit (some error) pipe t c).0 r.1
        r.2)

abbrev pub no_effects : List Effect → Bool
no_effects [] = true
no_effects (e ∷ es) = false

unfoldable pub spawns : List Effect → Bool
spawns [] = false
spawns (spawned ∷ es) = true
spawns (e ∷ es) = spawns es

-- No child, and the next start due at this time.
record Waiting (due : ℕ) (c : Capture) : Type 0 where
  pub idle : c.process ≡ none
  pub at : c.next_retry_at ≡ due

-- A read: its time, how the start of a child would go, and the pipe.
abbrev pub Read : Type 0
Read = ℕ × Option String × Pipe

unfoldable pub after_reads : Bool → ℕ → List Read → Capture → Capture
unfolding read_pcm
after_reads stereo limit [] c = c
after_reads stereo limit ((now, error, pipe) ∷ rs) c =
    after_reads stereo limit rs (read_pcm stereo limit error pipe now c).0

-- None of these reads has an effect, and none brings a window.
unfoldable pub all_idle : Bool → ℕ → List Read → Capture → Bool
unfolding read_pcm spawns
all_idle stereo limit [] c = true
all_idle stereo limit ((now, error, pipe) ∷ rs) c =
    let r = read_pcm stereo limit error pipe now c in
    (no_effects r.2 && not (is_some r.1)) && all_idle stereo limit rs r.0

read-Waiting :
    (stereo : Bool) (limit due now : ℕ) (error : Option String) (pipe : Pipe) (c : Capture)
    → Waiting due c
    → now < due
    → Waiting due (read_pcm stereo limit error pipe now c).0
      × (no_effects (read_pcm stereo limit error pipe now c).2
            && not (is_some (read_pcm stereo limit error pipe now c).1)
          ≡ true)
unfolding read_pcm reap
read-Waiting stereo limit due now error pipe c w h = (
  record { idle = ground (arith, w.idle, w.at); at = ground (arith, w.idle, w.at) },
  ground (arith, w.idle, w.at),
)

reads-Waiting :
    (stereo : Bool) (limit due : ℕ) (rs : List Read) (c : Capture)
    → Waiting due c
    → All (λ r. r.0 < due) rs
    → Waiting due (after_reads stereo limit rs c) × all_idle stereo limit rs c ≡ true
unfolding after_reads all_idle
reads-Waiting stereo limit due [] c w h = (w, refl)
reads-Waiting stereo limit due ((now, error, pipe) ∷ rs) c w (first, later) =
    let (w', idle) = read-Waiting stereo limit due now error pipe c w first in
    let rest =
      reads-Waiting stereo limit due rs (read_pcm stereo limit error pipe now c).0 w' later in
    (rest.0, ground (arith, idle, rest.1))

read-spawns :
    (stereo : Bool) (limit due now : ℕ) (pipe : Pipe) (c : Capture)
    → Waiting due c
    → spawns (read_pcm stereo limit none pipe now c).2 ≡ leb due now
unfolding read_pcm reap spawns
read-spawns stereo limit due now pipe c w = ground (arith, w.idle, w.at)

lost-Waiting :
    (stereo : Bool) (limit t : ℕ) (error : Option String) (pipe : Pipe) (c : Capture)
    → c.process ≡ some none
    → (read_pcm stereo limit error pipe t c).1 ≡ none
    → Waiting (t + c.retry) (read_pcm stereo limit error pipe t c).0
unfolding read_pcm reap read_windows record_failure
lost-Waiting stereo limit t error pipe c run lost = record {
  idle = ground arith;
  at = ground arith;
}

-- After a read at a time `t` of a running child that brought no window, whether the child ended or
-- stalled, no read of any series before the delay is over brings a window, starts a child or has
-- another effect; and the read after such a series starts a child, where that succeeds, exactly
-- when the delay is over.
pub read_pcm-waits :
    (stereo : Bool) (limit t now : ℕ) (error : Option String) (pipe pipe' : Pipe) (rs : List Read)
    (c : Capture)
    → c.process ≡ some none
    → (read_pcm stereo limit error pipe t c).1 ≡ none
    → All (λ r. r.0 < t + c.retry) rs
    → (all_idle stereo limit rs (read_pcm stereo limit error pipe t c).0 ≡ true)
      × (spawns
            (read_pcm stereo limit none pipe' now
              (after_reads stereo limit rs (read_pcm stereo limit error pipe t c).0)).2
          ≡ leb (t + c.retry) now)
read_pcm-waits stereo limit t now error pipe pipe' rs c run lost early =
    let c' = (read_pcm stereo limit error pipe t c).0 in
    let (w, idle) =
      reads-Waiting stereo limit (t + c.retry) rs c'
        (lost-Waiting stereo limit t error pipe c run lost) early in
    (idle, read-spawns stereo limit (t + c.retry) now pipe' (after_reads stereo limit rs c') w)

-- ===== src/Capture.antt =====
-- src/phono_console/alsa.py: `ArecordLevelMonitor`, which samples a capture device through arecord.
--
-- Times are naturals in milliseconds of the monotonic clock. A window of PCM is known by what
-- `analyze_s16le_stereo` says of it (Levels). The child and its pipe are outside: `Pipe` holds the
-- windows that come out of it while one call waits, and how the wait ends.
pub mod Newest
pub mod Failures
pub mod Engine
mod Tests
use text.Mathlib.Text.{◌==◌ as str_eq}
use phono_console.Base.{
  ℕ, zero, suc, ◌+◌, ◌-◌, ◌*◌, ◌/◌, ◌%◌, ◌^◌, ◌≤◌, ◌<◌, String, ◌≡◌, refl, sym, ap, ◌∙◌, subst, ◌≢◌,
  ◌↔◌, ◌⊎◌, inl, inr, Bool, true, false, not, ◌&&◌, ◌||◌, Option, none, some, List, [], ◌∷◌, ◌++◌,
  map, arith, ltb, leb, ◌==◌, if◌then◌else◌, leb→le, ==_iff, Bool-cases, Option-cases, is_some,
  length, take, drop, length-append, length-drop, All, All-append, take-append, drop-append,
  take-append-drop, length-take, take-add, take_last, drop-append_le, drop-drop, take_last-append,
  All-take, All-drop, ℤ, pos, negsuc, pos_part, neg_part, sub_ℕ, ◌+ℤ◌, ◌-ℤ◌, ◌≤ℤ◌, leb_ℤ, ltb_ℤ,
  +ℤ_parts, -ℤ_parts, eq_of_parts, int_laws,
}
use phono_console.Base.Backoff.{doubled}
use phono_console.Levels.{StereoLevel, LevelSession, fresh, update, max_ℤ}

pub record Capture : Type 0 where
  -- The child, and its return code when it has ended.
  pub process : Option (Option ℤ)
  pub next_retry_at : ℕ
  pub retry : ℕ
  pub last_error : Option String
  pub last_sample_at : Option ℕ
  pub discarded_windows : ℕ
  pub latest : Option StereoLevel
  pub session : LevelSession

-- `__init__`
abbrev pub initial : ℤ → Capture
initial floor = record {
  process = none;
  next_retry_at = 0;
  retry = 500;
  last_error = none;
  last_sample_at = none;
  discarded_windows = 0;
  latest = none;
  session = fresh floor;
}

pub data Effect : Type 0 where
  spawned killed terminated : Effect
  capture_start_failed capture_lost capture_stalled : String → ℕ → Effect
  capture_recovered capture_started capture_stopped : Effect

pub record Pipe : Type 0 where
  -- The windows that are read, each before its time limit.
  pub windows : List StereoLevel
  -- The child ends after them; else the next read runs into its time limit.
  pub ends : Bool
  -- What it wrote to stderr, or else the exit status.
  pub message : String

abbrev is_new : Option String → String → Bool
is_new none error = true
is_new (some last) error = not (str_eq last error)

-- `_record_failure`, with its event.
unfoldable pub record_failure : (String → ℕ → Effect) → String → ℕ → Capture → Capture × List Effect
unfolding doubled
record_failure event error now c = (
  record c {
    next_retry_at = now + c.retry;
    retry = doubled 30000 c.retry;
    last_error = some error;
  },
  if is_new c.last_error error then event error c.retry ∷ [] else [],
)

-- The windows that are discarded, and the newest one that is kept.
unfoldable pub newest : ℕ → StereoLevel → List StereoLevel → ℕ × StereoLevel
newest zero w ws = (0, w)
newest (suc limit) w [] = (0, w)
newest (suc limit) w (v ∷ ws) = let (discarded, kept) = newest limit v ws in (discarded + 1, kept)

-- The end of `read_pcm` for the window that was kept; `stereo` is `channels == 2`.
unfoldable pub accept : Bool → ℕ → ℕ → StereoLevel → Capture → Capture × List Effect
unfolding update
accept stereo discarded now w c = (
  record c {
    discarded_windows = c.discarded_windows + discarded;
    last_error = none;
    next_retry_at = 0;
    retry = 500;
    last_sample_at = some now;
    latest = if stereo then some w else c.latest;
    session = if stereo then update w c.session else c.session;
  },
  if is_some c.last_error
      then capture_recovered ∷ []
      else (if is_some c.last_sample_at then [] else capture_started ∷ []),
)

-- The read loop takes every window that is there, up to its limit; only then can it meet the end.
abbrev meets_end : ℕ → Pipe → Bool
meets_end limit pipe = pipe.ends && ltb (length pipe.windows) (limit + 1)

-- `read_pcm` on a running child: the window, or `CaptureUnavailable`.
unfoldable pub read_windows :
    Bool → ℕ → Pipe → ℕ → Capture → Capture × Option StereoLevel × List Effect
unfolding record_failure newest accept
read_windows stereo limit pipe now c =
    let given_up = record c { process = none } in
    if meets_end limit pipe
    then (let (c', effects) = record_failure capture_lost pipe.message now given_up in
        (c', none, effects))
    else elim pipe.windows [
      | [] ↦
          let (c', effects) =
            record_failure capture_stalled "ALSA capture produced no audio before the read timeout"
              now given_up in
          (c', none, killed ∷ effects)
      | w ∷ ws ↦
          let (discarded, kept) = newest limit w ws in
          let (c', effects) = accept stereo discarded now kept c in (c', some kept, effects)
    ]

-- A child that has ended is given up, and its end is recorded.
unfoldable pub reap : String → ℕ → Capture → Capture × List Effect
unfolding record_failure
reap message now c = elim c.process [
  | some (some code) ↦ record_failure capture_lost message now (record c { process = none })
  | _ ↦ (c, [])
]

-- `read_pcm`, given how `_start` goes.
unfoldable pub read_pcm :
    Bool → ℕ → Option String → Pipe → ℕ → Capture → Capture × Option StereoLevel × List Effect
unfolding reap read_windows record_failure
read_pcm stereo limit start_error pipe now c =
    let (c₁, lost) = reap pipe.message now c in
    if is_some c₁.process
    then read_windows stereo limit pipe now c₁
    else (if ltb now c₁.next_retry_at
        then (c₁, none, lost)
        else elim start_error as (λ _. Capture × Option StereoLevel × List Effect) [
          | some error ↦
              let (c₂, effects) = record_failure capture_start_failed error now c₁ in
              (c₂, none, lost ++ effects)
          | none ↦
              let (c₂, result, effects) =
                read_windows stereo limit pipe now (record c₁ { process = some none }) in
              (c₂, result, lost ++ (spawned ∷ effects))
        ])

-- `close`
unfoldable pub close : Capture → Capture × List Effect
close c = elim c.process [
  | some none ↦ (record c { process = none }, terminated ∷ capture_stopped ∷ [])
  | _ ↦ (record c { process = none }, [])
]

-- ===== src/Music/Console.antt =====
-- `MusicAssistantState` (src/phono_console/ma.py): the connection and the playback state of the
-- console's player. Times are in a fixed unit, of which `second` is the number in a second.
pub mod Reserved
pub mod Retry
use Prim.Native.Nat.{min}
use phono_console.Base.{
  ℕ, zero, suc, ◌+◌, ◌-◌, ◌*◌, ◌/◌, ◌%◌, ◌^◌, ◌≤◌, ◌<◌, String, ◌≡◌, refl, sym, ap, ◌∙◌, subst, ◌≢◌,
  ◌↔◌, ◌⊎◌, inl, inr, Bool, true, false, not, ◌&&◌, ◌||◌, Option, none, some, List, [], ◌∷◌, ◌++◌,
  map, arith, ltb, leb, ◌==◌, if◌then◌else◌, leb→le, ==_iff, Bool-cases, Option-cases, is_some,
  length, take, drop, length-append, length-drop, All, All-append, take-append, drop-append,
  take-append-drop, length-take, take-add, take_last, drop-append_le, drop-drop, take_last-append,
  All-take, All-drop, ℤ, pos, negsuc, pos_part, neg_part, sub_ℕ, ◌+ℤ◌, ◌-ℤ◌, ◌≤ℤ◌, leb_ℤ, ltb_ℤ,
  +ℤ_parts, -ℤ_parts, eq_of_parts, int_laws,
}
use phono_console.Base.Backoff.{doubled}
use phono_console.Music.{Player, find_named_player, is_playing, clamped, first_of}

-- The listener task: there is none, it runs, or it is done.
pub data Listener : Type 0 where
  no_listener running ended : Listener

pub record Console : Type 0 where
  pub listener : Listener
  -- Whether the event that the listener sets is there and set.
  pub ready : Bool
  -- Whether the connection task is done, if there is one.
  pub connection_task : Option Bool
  pub next_retry_at : ℕ
  pub retry_seconds : ℕ
  pub last_console_playing : Bool
  pub last_console_volume : Option ℕ
  pub player_missing_reported : Bool

pub data Effect : Type 0 where
  connected disconnected : Effect
  connection_failed : String → ℕ → Effect
  state_published : Bool → Effect
  connection_started : Effect
  player_missing : String → Effect
  output_reserved : Bool → Effect
  player_failed : Effect
  player_ok : Bool → Option ℕ → Effect

-- `__init__`
abbrev pub initial : Console
initial = record {
  listener = no_listener;
  ready = false;
  connection_task = none;
  next_retry_at = 0;
  retry_seconds = 1;
  last_console_playing = false;
  last_console_volume = none;
  player_missing_reported = false;
}

abbrev pub is_running : Listener → Bool
is_running running = true
is_running _ = false

ended_effects : Listener → List Effect
ended_effects ended = disconnected ∷ state_published false ∷ []
ended_effects _ = []

-- `_ensure_connected`, given how the wait for the listener goes: `none` when it is ready in time. The
-- third component is the exception.
unfoldable pub ensure_connected : Option String → Console → Console × List Effect × Option String
unfolding ended_effects
ensure_connected outcome c =
    if is_running c.listener
    then (if c.ready
        then (c, [], none)
        else (record c { ready = not (is_some outcome) }, [], outcome))
    else elim outcome [
      | none ↦ (
        record c { listener = running; ready = true },
        ended_effects c.listener ++ (connected ∷ state_published true ∷ []),
        none,
      )
      | some error ↦
          (record c { listener = no_listener; ready = false }, ended_effects c.listener, some error)
    ]

-- `_connect_for_status`, whose task is done at its end.
unfoldable pub connect_for_status : ℕ → Option String → ℕ → Console → Console × List Effect
unfolding ensure_connected doubled
connect_for_status second outcome now c =
    let (c', effects, raised) = ensure_connected outcome c in
    elim raised as (λ _. Console × List Effect) [
      | none ↦
          (record c' { next_retry_at = 0; retry_seconds = 1; connection_task = some true }, effects)
      | some error ↦ (
        record c' {
          next_retry_at = now + c'.retry_seconds * second;
          retry_seconds = doubled 30 c'.retry_seconds;
          connection_task = some true;
        },
        effects ++ (connection_failed error c'.retry_seconds ∷ state_published false ∷ []),
      )
    ]

-- A connection task that is done is forgotten.
unfoldable pub reap : Console → Console
reap c = record c {
  connection_task = elim c.connection_task [
    | none ↦ none
    | some done ↦ if done then none else some false
  ];
}

abbrev pub is_ready : Console → Bool
is_ready c = is_running c.listener && c.ready

-- Without telemetry: a connection is started when its time has come, and the last state is kept.
unfoldable pub without_telemetry : ℕ → Console → Console × Bool × List Effect
without_telemetry now c =
    let starts = not (is_some c.connection_task) && leb c.next_retry_at now in
    (
      if starts then record c { connection_task = some false } else c,
      c.last_console_playing,
      (if starts then connection_started ∷ [] else [])
          ++ (output_reserved c.last_console_playing ∷ []),
    )

-- With a listener that is ready, given the player that was found.
unfoldable pub with_player : String → Option Player → Console → Console × Bool × List Effect
unfolding clamped
with_player name none c = (
  record c { player_missing_reported = true },
  c.last_console_playing,
  (if c.player_missing_reported then [] else player_missing name ∷ []) ++ (player_failed ∷ []),
)
with_player name (some p) c =
    if not p.available
    then (
      record c { player_missing_reported = false; last_console_playing = false },
      false,
      player_failed ∷ [],
    )
    else (let now_playing = is_playing p.playback_state in
        let volume : Option ℕ = elim (first_of p.volume_level p.group_volume) [
          | none ↦ c.last_console_volume
          | some v ↦ some (clamped v)
        ] in
        (
          record c {
            player_missing_reported = false;
            last_console_playing = now_playing;
            last_console_volume = volume;
          },
          now_playing,
          player_ok now_playing volume ∷ [],
        ))

-- `console_is_playing`, with the state store.
unfoldable pub console_is_playing :
    ℕ → String → List Player → Console → Console × Bool × List Effect
unfolding reap without_telemetry with_player find_named_player
console_is_playing now name players c =
    let c' = reap c in
    if is_ready c'
    then with_player name (find_named_player name players) c'
    else without_telemetry now c'

-- `close`, less the disconnection.
unfoldable pub close : Console → Console × List Effect
close c = (record c { connection_task = none; listener = no_listener }, state_published false ∷ [])

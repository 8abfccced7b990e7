-- ===== src/Runtime.antt =====
-- src/phono_console/runtime.py: the callbacks about the distribution that `run_daemon` gives to the
-- controller. They read the `StateStore`, the publisher of the Sendspin source and Music Assistant's
-- telemetry.
--
-- The publisher, the telemetry client and the Bluetooth parts are outside: `Signals` holds what the
-- callbacks read of them. An entry of a telemetry dictionary is a Boolean (missing is false), and the
-- entry `selected_source` is the source that it spells, or none.
pub mod Distribution
pub mod Output
pub mod Hardware
pub mod Tests
use phono_console.Base.{
  ℕ, zero, suc, ◌+◌, ◌-◌, ◌*◌, ◌/◌, ◌%◌, ◌^◌, ◌≤◌, ◌<◌, String, ◌≡◌, refl, sym, ap, ◌∙◌, subst, ◌≢◌,
  ◌↔◌, ◌⊎◌, inl, inr, Bool, true, false, not, ◌&&◌, ◌||◌, Option, none, some, List, [], ◌∷◌, ◌++◌,
  map, arith, ltb, leb, ◌==◌, if◌then◌else◌, leb→le, ==_iff, Bool-cases, Option-cases, is_some,
  length, take, drop, length-append, length-drop, All, All-append, take-append, drop-append,
  take-append-drop, length-take, take-add, take_last, drop-append_le, drop-drop, take_last-append,
  All-take, All-drop, ℤ, pos, negsuc, pos_part, neg_part, sub_ℕ, ◌+ℤ◌, ◌-ℤ◌, ◌≤ℤ◌, leb_ℤ, ltb_ℤ,
  +ℤ_parts, -ℤ_parts, eq_of_parts, int_laws,
}
use phono_console.Policy.{
  Source, no_source, phono, bluetooth, is_source, Route, distributed_phono, is_route,
}
use phono_console.Controller.{Status}
use phono_console.State.{StateStore, whole_house_requested}

pub record Signals : Type 0 where
  pub has_publisher : Bool
  -- `publisher.client_id is not None`
  pub has_client : Bool
  pub phono_stop_pending : Bool
  pub stream_healthy : Bool
  pub connected : Bool
  pub stream_requested : Bool
  pub streaming : Bool
  pub selected_source : Option Source
  pub ma_connected : Bool
  pub console_playing : Bool
  pub target_playing : Bool
  -- `timestamped_bluetooth is not None`
  pub has_timestamped_bluetooth : Bool

unfoldable pub distribution_needs_start : Bool → Bool → Bool
distribution_needs_start stream_requested console_playing =
    not stream_requested || not console_playing

-- The source that the last published status calls active.
unfoldable pub active_source : Option Status → Source
active_source none = no_source
active_source (some status) =
    if status.phono_active
    then phono
    else (if status.bluetooth_active then bluetooth else no_source)

abbrev pub on_distributed_phono : Option Status → Bool
on_distributed_phono none = false
on_distributed_phono (some status) = is_route status.route distributed_phono

abbrev pub spells : Option Source → Source → Bool
spells none _ = false
spells (some named) wanted = is_source named wanted

abbrev pub is_current : Option ℕ → ℕ → Bool
is_current none generation = false
is_current (some g) generation = g == generation

abbrev pub session_current : {D : Type 0} → StateStore D → Bool
session_current s = is_current s.routing_session_generation s.routing_generation

-- `phono_stop_grace`
unfoldable pub stop_grace : {D : Type 0} → Signals → StateStore D → Bool
stop_grace x s =
    whole_house_requested s
    && (x.has_publisher
        && (x.phono_stop_pending && (on_distributed_phono s.status && session_current s)))

-- The other operand of the `or`.
unfoldable pub streams : {D : Type 0} → Signals → StateStore D → Bool
streams x s =
    whole_house_requested s
    && (x.has_publisher
        && (x.connected
            && (x.stream_requested
                && (x.streaming
                    && (spells x.selected_source (active_source s.status)
                        && (x.stream_healthy
                            && (x.ma_connected
                                && (x.console_playing
                                    && (x.target_playing
                                        && (session_current s
                                            && is_source s.routing_session_source
                                                (active_source s.status)))))))))))

unfoldable pub distribution_available : {D : Type 0} → Signals → StateStore D → Bool
distribution_available x s = stop_grace x s || streams x s

unfoldable pub distribution_capable : {D : Type 0} → Signals → StateStore D → Source → Bool
distribution_capable x s source =
    x.has_publisher
    && (((is_source source bluetooth && x.has_timestamped_bluetooth)
          || (is_source source phono && (whole_house_requested s && not x.phono_stop_pending)))
        && (whole_house_requested s
            && (x.has_client
                && (x.connected
                    && ((not x.stream_requested || x.stream_healthy) && x.ma_connected)))))

-- What `prepare_distribution` reads besides: the Bluetooth transport plays and its last sample is at
-- most half a second old; the result of `play_vinyl_source`; and whether a stream is requested when
-- it is done.
pub record Preparing : Type 0 where
  pub bluetooth_live : Bool
  pub started : Bool
  pub requested_after : Bool

unfoldable pub prepare_distribution : Signals → Preparing → Source → Bool
prepare_distribution x p source =
    if not (x.has_publisher && x.has_client)
    then false
    else (if is_source source bluetooth && not p.bluetooth_live
        then false
        else (if is_source source phono && x.phono_stop_pending
            then false
            else (if distribution_needs_start x.stream_requested x.console_playing && not p.started
                then false
                else p.requested_after)))

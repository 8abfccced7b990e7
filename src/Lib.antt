-- ===== src/Lib.antt =====
-- Verification of the Python daemon of the phono console.
--
-- The daemon listens to a turntable and to Bluetooth, decides each poll interval which source is
-- heard and by which path (directly, or through Music Assistant with the other rooms), and
-- operates the audio device, the amplifier and the rotary encoder accordingly.
--
-- The parts and their files (paths from the repository's root):
--   src/phono_console/policy.py: Policy. Routes, sources, the pure routing reducer and the
--     priority of sources.
--   src/phono_console/detector.py: Detector. Debounced activity with hysteresis.
--   src/phono_console/controller.py: Controller. One tick in six parts, in the order of the source:
--     Sense, Modes, Bluetooth, Distribution, Decide, Commit; Tick composes them and runs a series.
--     It calls Detector and Policy. Every callback and device of the constructor is a field of
--     `Environment` that holds the call's result in this tick, failures included; the effects of a
--     tick are a list of actions in order.
--   src/phono_console/router.py: Router. The calls of `ProcessAudioRouter.apply` on the loopbacks,
--     which the controller's actions `apply` and `reconcile` stand for.
--   src/phono_console/processes.py: Processes. `ManagedProcess`, the loopback's child.
--   src/phono_console/audio_engine_protocol.py: Protocol. The packets of the audio engine, by bytes.
--   src/phono_console/audio_engine_client.py: Fanout. The bounded queues of decoded frames, their
--     counters, and the reconnect delay.
--   src/phono_console/amplifier.py: Amplifier. The volume scales, the key presses of
--     `CecAmplifier.set_volume`, and in Power the polls of `power_on`.
--   src/phono_console/controls.py: Controls. The encoder's meaning on each route and its queue.
--   src/phono_console/config.py: Config. The settings and the checks of `_validate`, and what they
--     give to Fanout and Amplifier.
--   src/phono_console/state.py: State. `StateStore`: the user's intent with its generation, the
--     components, the event log and the health report. The controller's actions `report`, `emit` and
--     `set_routing_state` stand for calls of it.
--   src/phono_console/runtime.py: Runtime. The callbacks about the distribution, which read State and
--     which the controller calls; the choice of output in Output, which changes State and Publisher;
--     the volume and press actions in Hardware, which use Controls, Amplifier and Music.
--   src/phono_console/ma.py: Music. `MusicAssistantState`: play requests in Requests, the connection
--     and the console's playback state in Console, calls for named players in Players.
--   src/phono_console/api.py: Api. The checks of `ControlApi` on its requests; Output is the way of a
--     request to the output, which changes State and runs Runtime's action.
--   src/phono_console/bluetooth.py: Bluetooth. `BluetoothManager`: the agent, the pairing window, and
--     the volume of the phone, which Runtime's action passes on.
--   src/phono_console/audio_engine_playback.py: Playback. `TimestampedLocalPlayback`: its child and
--     its pump.
--   src/phono_console/levels.py: Levels. The levels of stereo PCM, and the session's maxima.
--   src/phono_console/alsa.py: Capture. `ArecordLevelMonitor`: the newest window, and the failures.
--   src/phono_console/audio_engine_monitor.py: Capture.Engine. `TimestampedLevelMonitor`.
--   src/phono_console/sendspin_source.py: Publisher. `SendspinSourcePublisher`: the stream and its
--     retries in Streaming, the server's commands and the connection in Commands, sequences of steps
--     in Steps, the line-sense watcher in Signal, the timestamps in Pump. The callbacks of Runtime
--     read what it publishes, and its detector is Detector's.
-- Base holds the shared vocabulary: Boolean tests, signed integers, lists measured by the native
-- numbers, little-endian bytes and the doubling backoff.
--
-- Choices. Levels in dB are integers in a fixed fraction of a decibel, and times are naturals in a
-- fixed unit; the code only compares, adds and subtracts them. A difference that is tested against
-- a delay is written as a sum on the other side, so that the subtraction of naturals never stops at
-- 0. Python's integers are unbounded, and so are the naturals; the widths of the packet fields are
-- written out. `Controls.serve` has one unit of fuel for each waiting event: a
-- round takes one event and adds none. The loop of `Amplifier.Power.power_on` has 33 units: a round
-- takes at least 250 ms of its 8 s. A rounded quotient is exact, with ties to even.
--
-- An operation with awaits is one step where a lock or the order of its calls makes it so; where
-- other tasks can come in between and it matters, the model has the parts as steps of their own
-- (Publisher), the events that arrive meanwhile (Controls) or what others do to the store and to the
-- publisher meanwhile (Runtime.Output, Api.Output). A request and a press of the encoder are not
-- carried out at the same time.
--
-- Not modelled: sockets, subprocesses, GPIO, D-Bus, HTTP and the event loop, which are I/O; the
-- contents of reports and log lines; the peak limiter and the statistics of audio probes, which are
-- floating-point; the parsing of TOML and of the text of bluetoothctl, which regular expressions and
-- libraries do; the set-up and the pairing of the Sendspin client; the command line, the adapters of
-- the engine's backend and the rendering of the dashboard. The engine itself is a C program.
pub mod Base
pub mod Policy
pub mod Detector
pub mod Protocol
pub mod Fanout
pub mod Controller
pub mod Router
pub mod Processes
pub mod Amplifier
pub mod Controls
pub mod Config
pub mod State
pub mod Runtime
pub mod Publisher
pub mod Music
pub mod Levels
pub mod Capture
pub mod Api
pub mod Bluetooth
pub mod Playback

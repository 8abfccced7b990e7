-- ===== src/Api/Output/Overtaken.antt =====
-- A request to the output that waits for the lock (src/phono_console/api.py), while other tasks call
-- the store (src/phono_console/state.py).
use phono_console.Base.{◌+◌, String, Bool, true, List, [], if◌then◌else◌}
use phono_console.Policy.{PhonoOutputMode}
use phono_console.State.{set_output_target}
use phono_console.Runtime.Output.{House, Transition, Action, target_of, output_mode_action}
use phono_console.Api.{Response, ok}
use phono_console.Api.Output.{answer, put_store, Request}

-- The house when the request has set the target, before it waits for the lock.
abbrev pub chosen : {D : Type 0} → PhonoOutputMode → House D → House D
chosen mode h = put_store (set_output_target (target_of mode) true h.store).0 h

-- What a request makes of the house that it finds behind the lock: it carries its choice out when it
-- is still the newest, and else leaves all as it is.
abbrev pub outcome :
    {D : Type 0}
    → Bool
    → String
    → Request D
    → PhonoOutputMode
    → Transition D
    → House D
    → House D
    → House D × List Action × Response
outcome newest missing q mode x h found =
    if newest
    then answer q h.store.output_target (target_of mode) (h.store.routing_generation + 1)
        (output_mode_action missing mode x found)
    else (found, [], ok)

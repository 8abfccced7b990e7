-- ===== src/Api.antt =====
-- src/phono_console/api.py: `ControlApi`, the handlers that change something.
--
-- A request's body is what its JSON entry holds. The actions of other parts are arguments: what they
-- raise. The one on the output is Runtime's, as `run_daemon` passes it.
pub mod Output
mod Tests
use text.Mathlib.Text.{◌==◌ as str_eq}
use phono_console.Base.{
  ℕ, zero, suc, ◌+◌, ◌-◌, ◌*◌, ◌/◌, ◌%◌, ◌^◌, ◌≤◌, ◌<◌, String, ◌≡◌, refl, sym, ap, ◌∙◌, subst, ◌≢◌,
  ◌↔◌, ◌⊎◌, inl, inr, Bool, true, false, not, ◌&&◌, ◌||◌, Option, none, some, List, [], ◌∷◌, ◌++◌,
  map, arith, ltb, leb, ◌==◌, if◌then◌else◌, leb→le, ==_iff, Bool-cases, Option-cases, is_some,
  length, take, drop, length-append, length-drop, All, All-append, take-append, drop-append,
  take-append-drop, length-take, take-add, take_last, drop-append_le, drop-drop, take_last-append,
  All-take, All-drop, ℤ, pos, negsuc, pos_part, neg_part, sub_ℕ, ◌+ℤ◌, ◌-ℤ◌, ◌≤ℤ◌, leb_ℤ, ltb_ℤ,
  +ℤ_parts, -ℤ_parts, eq_of_parts, int_laws,
}
use phono_console.Policy.{PhonoOutputMode}

pub data Json : Type 0 where
  missing other : Json
  boolean : Bool → Json
  integer : ℤ → Json
  word : String → Json

pub data Response : Type 0 where
  ok bad_request unauthorized conflict unavailable : Response

-- How an action ends: it returns, it raises a `ValueError`, or another exception.
pub data Ending : Type 0 where
  returns value_error raises : Ending

abbrev pub response_of : Ending → Response
response_of returns = ok
response_of value_error = bad_request
response_of raises = unavailable

one_of : List String → String → Bool
one_of [] path = false
one_of (p ∷ ps) path = str_eq p path || one_of ps path

-- `authenticate`: `none` where the handler is called. The header is empty if it is missing.
unfoldable pub authenticate :
    List String → (String → String) → Option String → String → String → Option Response
unfolding one_of
authenticate public_paths bearer none path supplied = none
authenticate public_paths bearer (some token) path supplied =
    if one_of public_paths path || str_eq supplied (bearer token) then none else some unauthorized

pub data Pairing : Type 0 where
  open_pairing close_pairing : Pairing

-- `set_bluetooth_pairing`: the response, and the action that is called; `none` is no action, where
-- Bluetooth is disabled.
unfoldable pub set_bluetooth_pairing : Option (Pairing → Ending) → Json → Response × Option Pairing
set_bluetooth_pairing action (boolean enabled) =
    let wanted = if enabled then open_pairing else close_pairing in
    elim action [ none ↦ (conflict, none) | some run ↦ (if_raised (run wanted), some wanted) ]
  where
    if_raised : Ending → Response
    if_raised returns = ok
    if_raised _ = unavailable
set_bluetooth_pairing action _ = (bad_request, none)

-- `bluetooth_device`: the response, and the command and the address that are passed on.
unfoldable pub bluetooth_device :
    Option (String → String → Ending) → Json → Json → Response × Option (String × String)
bluetooth_device none address action = (conflict, none)
bluetooth_device (some run) (word address) (word action) =
    if str_eq action "disconnect"
    then (response_of (run "disconnect" address), some ("disconnect", address))
    else (if str_eq action "forget"
        then (response_of (run "remove" address), some ("remove", address))
        else (bad_request, none))
bluetooth_device (some run) _ _ = (bad_request, none)

-- `bluetooth_media`
unfoldable pub bluetooth_media : Option (String → Ending) → Json → Response × Option String
unfolding one_of
bluetooth_media none command = (conflict, none)
bluetooth_media (some run) (word command) =
    if one_of ("play" ∷ "pause" ∷ "next" ∷ "previous" ∷ []) command
    then (response_of (run command), some command)
    else (bad_request, none)
bluetooth_media (some run) _ = (bad_request, none)

-- The volume of `amplifier_volume`; a Python boolean is an integer.
unfoldable pub requested_volume : Json → Option ℕ
requested_volume (integer (pos n)) = if leb n 100 then some n else none
requested_volume (boolean b) = some (if b then 1 else 0)
requested_volume _ = none

-- `set_local_only`, `set_whole_house` and `set_output_mode`: the mode that is asked for; `none` is a
-- bad request.
unfoldable pub local_only_mode : Json → Option PhonoOutputMode
local_only_mode (boolean enabled) =
    some (if enabled then PhonoOutputMode.local else PhonoOutputMode.downstairs)
local_only_mode _ = none

unfoldable pub whole_house_mode : Json → Option PhonoOutputMode
whole_house_mode (boolean requested) =
    some (if requested then PhonoOutputMode.downstairs else PhonoOutputMode.local)
whole_house_mode _ = none

unfoldable pub output_mode : Json → Option PhonoOutputMode
output_mode (word mode) =
    if str_eq mode "local"
    then some PhonoOutputMode.local
    else (if str_eq mode "downstairs" then some PhonoOutputMode.downstairs else none)
output_mode _ = none

-- ===== src/Runtime/Hardware/Turns.antt =====
-- The volumes that the actions of src/phono_console/runtime.py set, and the volume of the local phono.
use phono_console.Base.{
  ℕ, ◌≤◌, ◌≡◌, refl, sym, ap, ◌∙◌, subst, inl, inr, Bool, true, false, not, ◌&&◌, Option, List, [],
  ◌∷◌, arith, leb, if◌then◌else◌, Option-cases, ℤ, pos, ◌+ℤ◌,
}
use phono_console.Controls.{VolumeTarget, downstairs, no_target, volume_target_for_route}
use phono_console.Controller.{Status}
use phono_console.Policy.{Route, local_phono, is_route}
use phono_console.Music.{clamped}
use phono_console.Runtime.Hardware.{
  or_fifty, get_player_volume, VolumeTarget, volume_target_for_route, turn_volume, Action,
  amplifier_set, group_set, volume_saved, Devices, route_of, amplifier_answers,
  amplifier_volume_action, bluetooth_volume_action, activate_route, hardware_volume_action,
}

-- Every volume that is set or saved is at most 100.
unfoldable pub in_range : List Action → Bool
in_range [] = true
in_range (amplifier_set v ∷ rest) = leb v 100 && in_range rest
in_range (group_set v ∷ rest) = leb v 100 && in_range rest
in_range (volume_saved v ∷ rest) = leb v 100 && in_range rest
in_range (a ∷ rest) = in_range rest

clamped_bound : (v : ℤ) → clamped v ≤ 100
unfolding clamped
clamped_bound v = ground arith

amplifier_volume_action-in_range :
    (x : Devices) (status : Option Status) (from_ma : Bool) (v saved : ℕ)
    → v ≤ 100
    → saved ≤ 100
    → in_range (amplifier_volume_action x status from_ma v saved).1 ≡ true
      × (amplifier_volume_action x status from_ma v saved).0 ≤ 100
unfolding in_range amplifier_volume_action
amplifier_volume_action-in_range x status from_ma v saved h k = (ground arith, ground arith)

turn_volume-in_range :
    (target : VolumeTarget) (x : Devices) (status : Option Status) (delta : ℤ) (saved : ℕ)
    → saved ≤ 100
    → in_range (turn_volume target x status delta saved).1 ≡ true
      × (turn_volume target x status delta saved).0 ≤ 100
unfolding turn_volume in_range
turn_volume-in_range downstairs x status delta saved h =
    elim (Option-cases (get_player_volume x.players x.target)) [
      | inl e ↦ rw (turn_volume, e) (refl, h)
      | inr (current, e) ↦
          rw (turn_volume, e) (ground (arith, clamped_bound (pos current +ℤ delta)), h)
    ]
turn_volume-in_range no_target x status delta saved h = (refl, h)
turn_volume-in_range VolumeTarget.local x status delta saved h =
    let current : ℕ =
      if is_route (route_of status) local_phono then saved else or_fifty x.reported_volume in
    amplifier_volume_action-in_range x status false (clamped (pos current +ℤ delta)) saved
      (clamped_bound (pos current +ℤ delta)) h

-- A turn of the encoder, however large, on any route, sets and saves only volumes from 0 to 100.
pub hardware_volume_action-in_range :
    (x : Devices) (status : Option Status) (delta : ℤ) (saved : ℕ)
    → saved ≤ 100
    → in_range (hardware_volume_action x status delta saved).1 ≡ true
      × (hardware_volume_action x status delta saved).0 ≤ 100
unfolding hardware_volume_action
hardware_volume_action-in_range x status delta saved h =
    turn_volume-in_range (volume_target_for_route (route_of status)) x status delta saved h

-- What changes a volume: a turn, a volume of the phone, one of Music Assistant, and a new route.
pub data Change : Type 0 where
  turned : Option Status → ℤ → Change
  phone_set : Option Status → ℕ → Change
  ma_set : Option Status → ℕ → Change
  route_entered : Option ℕ → Route → Change

-- The saved volume after a change.
unfoldable pub saved_after : Devices → Change → ℕ → ℕ
unfolding hardware_volume_action bluetooth_volume_action amplifier_volume_action activate_route
saved_after x (turned status delta) saved = (hardware_volume_action x status delta saved).0
saved_after x (phone_set status volume) saved = (bluetooth_volume_action x status volume saved).0
saved_after x (ma_set status volume) saved = (amplifier_volume_action x status true volume saved).0
saved_after x (route_entered console_volume route) saved =
    (activate_route x console_volume route saved).0

unfoldable pub saved_after_all : Devices → List Change → ℕ → ℕ
unfolding saved_after
saved_after_all x [] saved = saved
saved_after_all x (c ∷ cs) saved = saved_after_all x cs (saved_after x c saved)

-- Not a turn on the local phono's route.
unfoldable pub is_away : Change → Bool
is_away (turned status delta) = not (is_route (route_of status) local_phono)
is_away c = true

unfoldable pub elsewhere : List Change → Bool
unfolding is_away
elsewhere [] = true
elsewhere (c ∷ cs) = is_away c && elsewhere cs

amplifier_volume_action-elsewhere :
    (x : Devices) (status : Option Status) (volume saved : ℕ)
    → is_route (route_of status) local_phono ≡ false
    → (amplifier_volume_action x status false volume saved).0 ≡ saved
unfolding amplifier_volume_action
amplifier_volume_action-elsewhere x status volume saved h = ground arith

turn_volume-elsewhere :
    (target : VolumeTarget) (x : Devices) (status : Option Status) (delta : ℤ) (saved : ℕ)
    → is_route (route_of status) local_phono ≡ false
    → (turn_volume target x status delta saved).0 ≡ saved
unfolding turn_volume amplifier_volume_action
turn_volume-elsewhere downstairs x status delta saved h =
    elim (Option-cases (get_player_volume x.players x.target)) [
      | inl e ↦ rw (turn_volume, e) refl
      | inr (current, e) ↦ rw (turn_volume, e) refl
    ]
turn_volume-elsewhere no_target x status delta saved h = refl
turn_volume-elsewhere VolumeTarget.local x status delta saved h =
    let current : ℕ =
      if is_route (route_of status) local_phono then saved else or_fifty x.reported_volume in
    amplifier_volume_action-elsewhere x status (clamped (pos current +ℤ delta)) saved h

saved_after-elsewhere :
    (x : Devices) (c : Change) (saved : ℕ) → is_away c ≡ true → saved_after x c saved ≡ saved
unfolding saved_after is_away
saved_after-elsewhere x (turned status delta) saved h =
    turn_volume-elsewhere (volume_target_for_route (route_of status)) x status delta saved
      (ground arith)
saved_after-elsewhere x (phone_set status volume) saved h = ground arith
saved_after-elsewhere x (ma_set status volume) saved h = ground arith
saved_after-elsewhere x (route_entered console_volume route) saved h = ground arith

saved_after_all-elsewhere :
    (x : Devices) (cs : List Change) (saved : ℕ)
    → elsewhere cs ≡ true
    → saved_after_all x cs saved ≡ saved
unfolding saved_after_all elsewhere
saved_after_all-elsewhere x [] saved h = refl
saved_after_all-elsewhere x (c ∷ cs) saved h =
    let first = saved_after-elsewhere x c saved (ground (arith, h)) in
    rw first (saved_after_all-elsewhere x cs saved (ground (arith, h)))

amplifier_on_phono :
    (x : Devices) (status : Option Status) (volume saved : ℕ)
    → route_of status ≡ local_phono
    → amplifier_answers x (pos volume) ≡ true
    → (amplifier_volume_action x status false volume saved).0 ≡ volume
unfolding amplifier_volume_action
amplifier_on_phono x status volume saved on a = ground arith

turn_local :
    (x : Devices) (status : Option Status) (delta : ℤ) (saved : ℕ)
    → route_of status ≡ local_phono
    → amplifier_answers x (pos (clamped (pos saved +ℤ delta))) ≡ true
    → (turn_volume VolumeTarget.local x status delta saved).0 ≡ clamped (pos saved +ℤ delta)
unfolding turn_volume
turn_local x status delta saved on a =
    let current : ℕ =
      if is_route (route_of status) local_phono then saved else or_fifty x.reported_volume in
    let here : current ≡ saved = rw on refl in
    let answers =
      subst (λ c. amplifier_answers x (pos (clamped (pos c +ℤ delta))) ≡ true) (sym here) a in
    amplifier_on_phono x status (clamped (pos current +ℤ delta)) saved on answers
    ∙ ap (λ c. clamped (pos c +ℤ delta)) here

turn_on_phono :
    (x : Devices) (status : Option Status) (delta : ℤ) (saved : ℕ)
    → route_of status ≡ local_phono
    → amplifier_answers x (pos (clamped (pos saved +ℤ delta))) ≡ true
    → (hardware_volume_action x status delta saved).0 ≡ clamped (pos saved +ℤ delta)
unfolding hardware_volume_action volume_target_for_route
turn_on_phono x status delta saved on a =
    subst
      (λ r.
        (turn_volume (volume_target_for_route r) x status delta saved).0
        ≡ clamped (pos saved +ℤ delta))
      (sym on) (turn_local x status delta saved on a)

-- The volume of the local phono survives whatever is played in between: after a turn on its route
-- that the amplifier answers, and any volumes of the phone and of Music Assistant, new routes and turns
-- elsewhere, entering the route again asks the amplifier for the volume of that turn.
pub local_phono_volume_kept :
    (x : Devices) (status : Option Status) (delta : ℤ) (saved : ℕ) (cs : List Change)
    (console_volume : Option ℕ)
    → route_of status ≡ local_phono
    → amplifier_answers x (pos (clamped (pos saved +ℤ delta))) ≡ true
    → elsewhere cs ≡ true
    → (activate_route x console_volume local_phono
        (saved_after_all x (turned status delta ∷ cs) saved)).1
      ≡ amplifier_set (clamped (pos saved +ℤ delta)) ∷ []
unfolding saved_after_all saved_after activate_route
local_phono_volume_kept x status delta saved cs console_volume on a h =
    let kept = saved_after_all-elsewhere x cs (hardware_volume_action x status delta saved).0 h in
    ap (λ v. amplifier_set v ∷ []) (kept ∙ turn_on_phono x status delta saved on a)

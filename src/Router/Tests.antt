-- ===== src/Router/Tests.antt =====
-- Tests of src/phono_console/router.py, and the properties at a concrete handover.
use phono_console.Base.{◌≡◌, refl, Bool, true, false, [], ◌∷◌, arith, All}
use phono_console.Policy.{ma_playback}
use phono_console.Router.{
  Router, Running, Operation, stop, start, phono_loop, bluetooth_loop, ma_loop, apply, trace,
}
use phono_console.Router.Exclusive.{Fits, IsExclusive, apply-IsExclusive}

abbrev full_router : Router
full_router = record { has_bluetooth = true; has_ma = true }

-- The phono loopback runs.
abbrev phono_runs : Running
phono_runs = record { phono = true; bluetooth = false; ma = false }

-- The start of the Music Assistant loopback raises.
abbrev ma_fails : Operation → Bool
ma_fails (start ma_loop) = true
ma_fails _ = false

phono_runs-Fits : Fits full_router phono_runs
phono_runs-Fits = record { bluetooth_known = λ h. refl; ma_known = λ h. refl }

apply_test :
    apply full_router ma_playback ≡ stop phono_loop ∷ stop bluetooth_loop ∷ start ma_loop ∷ []
unfolding apply
apply_test = refl

apply-IsExclusive_example :
    All IsExclusive (trace ma_fails (apply full_router ma_playback) phono_runs)
apply-IsExclusive_example =
    apply-IsExclusive full_router ma_playback ma_fails phono_runs phono_runs-Fits (omega arith)

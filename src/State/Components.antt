-- ===== src/State/Components.antt =====
-- `StateStore.set_component` (src/phono_console/state.py): what a report leaves for its component and
-- for the others.
use phono_console.Base.{ℕ, String, ◌≡◌, ap, ◌≢◌, Bool, Option, none, some, List, []}
use phono_console.State.{
  StateStore, Component, ComponentStatus, get_component, put_component, set_component, updated,
}
use phono_console.State.Health.{get-put, get-put_other}

components_of : {D : Type 0} → Option (StateStore D) → List (String × Component D)
components_of none = []
components_of (some s) = s.components

-- A report is read back for its component, dated now unless it repeats the previous one, and no
-- other component is touched.
pub get_component-set_component :
    {D : Type 0} (same : D → D → Bool) (name other : String) (status : ComponentStatus)
    (message : String) (details : D) (now : ℕ) (s s' : StateStore D)
    → name ≢ other
    → set_component same name (some status) message details now s ≡ some s'
    → (get_component name s'.components
        ≡ some (record {
          status = status;
          message = message;
          details = details;
          updated_at = updated same (get_component name s.components) status message details now;
        }))
      × (get_component other s'.components ≡ get_component other s.components)
unfolding set_component components_of
get_component-set_component same name other status message details now s s' apart h =
    let c : Component _ = record {
      status = status;
      message = message;
      details = details;
      updated_at = updated same (get_component name s.components) status message details now;
    } in
    let e : put_component name c s.components ≡ s'.components = ap components_of h in
    (
      rw (← e) (get-put name c s.components),
      rw (← e) (get-put_other name other c s.components apart),
    )

-- ===== src/Bluetooth/Window.antt =====
-- The pairing window of `BluetoothManager` (src/phono_console/bluetooth.py).
use phono_console.Base.{
  ℕ, ◌≡◌, Bool, true, false, not, ◌&&◌, ◌||◌, none, some, List, [], ◌∷◌, arith, is_some,
}
use phono_console.Bluetooth.{
  Manager, open_pairing, close_pairing, window_over, answer_prompt, agent_started, agent_exited,
  agent_failed, close,
}

pub data Step : Type 0 where
  opened closed : Bool → Step
  timed_out : ℕ → Bool → Step
  started exited failed closed_all : Step

unfoldable pub step : Step → Manager → Manager
unfolding open_pairing close_pairing window_over agent_started agent_exited agent_failed close
step (opened sent) m = (open_pairing sent m).0
step (closed listed) m = (close_pairing listed m).0
step (timed_out id listed) m = window_over id listed m
step started m = agent_started m
step exited m = agent_exited m
step failed m = agent_failed m
step closed_all m = close m

unfoldable pub steps : List Step → Manager → Manager
unfolding step
steps [] m = m
steps (s ∷ ss) m = steps ss (step s m)

-- An open that reaches the agent.
unfoldable pub reaches : Step → Manager → Bool
reaches (opened sent) m = m.running && sent
reaches s m = true

unfoldable pub all_reach : List Step → Manager → Bool
unfolding reaches step
all_reach [] m = true
all_reach (s ∷ ss) m = reaches s m && all_reach ss (step s m)

-- While prompts are accepted, a timer runs.
unfoldable pub is_timed : Manager → Bool
is_timed m = not m.pairing_active || is_some m.pairing_task

step-is_timed :
    (s : Step) (m : Manager) → reaches s m ≡ true → is_timed m ≡ true → is_timed (step s m) ≡ true
unfolding step reaches is_timed
step-is_timed s m r t = ground arith

-- As long as every opening of the window reaches the agent, prompts are accepted only while a timer
-- runs that will close the window, whatever happens to the agent.
pub steps-is_timed :
    (ss : List Step) (m : Manager)
    → all_reach ss m ≡ true
    → is_timed m ≡ true
    → is_timed (steps ss m) ≡ true
unfolding steps all_reach
steps-is_timed [] m r t = t
steps-is_timed (s ∷ ss) m r t =
    steps-is_timed ss (step s m) (ground (arith, r)) (step-is_timed s m (ground (arith, r)) t)

-- An opening while no agent runs and no timer is there raises, and leaves the next agent accepting
-- every prompt without a timer, while the published state says that the window is closed.
pub opened_for_good :
    (sent : Bool) (m : Manager)
    → m.running ≡ false
    → m.pairing_task ≡ none
    → (open_pairing sent m).1 ≡ true
      × answer_prompt (agent_started (open_pairing sent m).0) ≡ some true
      × (agent_started (open_pairing sent m).0).pairing_task ≡ none
      × (agent_started (open_pairing sent m).0).published_pairing ≡ false
unfolding open_pairing agent_started answer_prompt
opened_for_good sent m r t = (ground arith, ground arith, ground arith, ground arith)

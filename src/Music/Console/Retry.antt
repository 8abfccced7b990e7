-- ===== src/Music/Console/Retry.antt =====
-- `MusicAssistantState` (src/phono_console/ma.py): when it connects again.
use Prim.Native.Nat.{min}
use phono_console.Base.{
  ℕ, ◌+◌, ◌*◌, ◌^◌, ◌<◌, String, ◌≡◌, refl, subst, ◌∙◌, Bool, true, false, ◌||◌, none, some, List,
  [], ◌∷◌, arith, leb, length, All,
}
use phono_console.Base.Backoff.{doubled, repeat_doubled, repeat_doubled-pow}
use phono_console.Music.{Player}
use phono_console.Music.Console.{
  is_ready, reap, Console, initial, Effect, connection_started, connect_for_status,
  console_is_playing,
}

-- The console after attempts to connect that fail at these times.
unfoldable pub failures : ℕ → String → List ℕ → Console → Console
unfolding connect_for_status
failures second error [] c = c
failures second error (t ∷ ts) c =
    failures second error ts (connect_for_status second (some error) t c).0

unfoldable pub starts : List Effect → Bool
starts [] = false
starts (connection_started ∷ es) = true
starts (e ∷ es) = starts es

attempt_doubles :
    (second : ℕ) (error : String) (t : ℕ) (c : Console)
    → is_ready c ≡ false
    → (connect_for_status second (some error) t c).0.retry_seconds ≡ doubled 30 c.retry_seconds
      × (connect_for_status second (some error) t c).0.next_retry_at ≡ t + c.retry_seconds * second
      × is_ready (connect_for_status second (some error) t c).0 ≡ false
unfolding connect_for_status
attempt_doubles second error t c h = (ground arith, ground arith, ground arith)

failures-retry :
    (second : ℕ) (error : String) (ts : List ℕ) (c : Console)
    → is_ready c ≡ false
    → (failures second error ts c).retry_seconds ≡ repeat_doubled 30 (length ts) c.retry_seconds
      × is_ready (failures second error ts c) ≡ false
unfolding failures repeat_doubled
failures-retry second error [] c h = (refl, h)
failures-retry second error (t ∷ ts) c h =
    let next = attempt_doubles second error t c h in
    let rest =
      failures-retry second error ts (connect_for_status second (some error) t c).0 (next.2) in
    (rest.0 ∙ rw (next.0) refl, rest.1)

-- Not connected, with no attempt under way and the next one due at this time.
record Waiting (due : ℕ) (c : Console) : Type 0 where
  pub unready : is_ready c ≡ false
  pub idle : (reap c).connection_task ≡ none
  pub at : c.next_retry_at ≡ due

-- The console after polls at these times, with the players of each.
unfoldable pub after_polls : String → List (ℕ × List Player) → Console → Console
unfolding console_is_playing
after_polls name [] c = c
after_polls name ((now, players) ∷ ps) c =
    after_polls name ps (console_is_playing now name players c).0

-- One of these polls starts a connection.
unfoldable pub any_starts : String → List (ℕ × List Player) → Console → Bool
unfolding starts console_is_playing
any_starts name [] c = false
any_starts name ((now, players) ∷ ps) c =
    starts (console_is_playing now name players c).2
    || any_starts name ps (console_is_playing now name players c).0

poll-Waiting :
    (due now : ℕ) (name : String) (players : List Player) (c : Console)
    → Waiting due c
    → now < due
    → Waiting due (console_is_playing now name players c).0
unfolding console_is_playing reap
poll-Waiting due now name players c w h = record {
  unready = ground (arith, w.unready, w.idle, w.at);
  idle = ground (arith, w.unready, w.idle, w.at);
  at = ground (arith, w.unready, w.idle, w.at);
}

poll-starts :
    (due now : ℕ) (name : String) (players : List Player) (c : Console)
    → Waiting due c
    → starts (console_is_playing now name players c).2 ≡ leb due now
unfolding starts console_is_playing reap
poll-starts due now name players c w = ground (arith, w.unready, w.idle, w.at)

polls-Waiting :
    (due : ℕ) (name : String) (ps : List (ℕ × List Player)) (c : Console)
    → Waiting due c
    → All (λ p. p.0 < due) ps
    → Waiting due (after_polls name ps c) × any_starts name ps c ≡ false
unfolding after_polls any_starts
polls-Waiting due name [] c w h = (w, refl)
polls-Waiting due name ((now, players) ∷ ps) c w (first, later) =
    let rest =
      polls-Waiting due name ps (console_is_playing now name players c).0
        (poll-Waiting due now name players c w first) later in
    (rest.0, ground (arith, poll-starts due now name players c w, rest.1))

attempt-Waiting :
    (second : ℕ) (error : String) (t : ℕ) (c : Console)
    → is_ready c ≡ false
    → Waiting (t + c.retry_seconds * second) (connect_for_status second (some error) t c).0
unfolding connect_for_status reap
attempt-Waiting second error t c h = record {
  unready = ground arith;
  idle = ground arith;
  at = ground arith;
}

-- After k attempts that failed, one more failure at a time `t` puts the next attempt off for 2 ^ k
-- seconds, and at most thirty: of any series of polls before then none starts a connection, and
-- the poll after such a series starts one exactly when that time has come.
pub failures-waits :
    (second : ℕ) (error name : String) (ts : List ℕ) (t now : ℕ) (players : List Player)
    (ps : List (ℕ × List Player))
    → All (λ p. p.0 < t + min (2 ^ length ts) 30 * second) ps
    → (any_starts name ps
          (connect_for_status second (some error) t (failures second error ts initial)).0
        ≡ false)
      × (starts
            (console_is_playing now name players (
              after_polls name ps
                (connect_for_status second (some error) t (failures second error ts initial)).0)).2
          ≡ leb (t + min (2 ^ length ts) 30 * second) now)
failures-waits second error name ts t now players ps h =
    let c = failures second error ts initial in
    let f = failures-retry second error ts initial refl in
    let k = repeat_doubled-pow 30 (length ts) 1 (omega arith) in
    let one : 1 * 2 ^ length ts ≡ 2 ^ length ts = omega arith in
    let delay : c.retry_seconds ≡ min (2 ^ length ts) 30 = f.0 ∙ (k ∙ rw one refl) in
    let due = t + min (2 ^ length ts) 30 * second in
    let waits =
      subst (λ d. Waiting (t + d * second) (connect_for_status second (some error) t c).0) delay
        (attempt-Waiting second error t c f.1) in
    let (later, none_starts) =
      polls-Waiting due name ps (connect_for_status second (some error) t c).0 waits h in
    (
      none_starts,
      poll-starts due now name players
          (after_polls name ps (connect_for_status second (some error) t c).0) later,
    )

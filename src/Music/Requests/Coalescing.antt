-- ===== src/Music/Requests/Coalescing.antt =====
-- `MusicAssistantState.play_vinyl_source` (src/phono_console/ma.py): one request at a time.
use phono_console.Base.{
  ℕ, ◌+◌, ◌≡◌, refl, sym, ◌∙◌, subst, ◌≢◌, inl, inr, Bool, true, false, not, ◌&&◌, ◌||◌, Option,
  none, some, List, [], ◌∷◌, map, arith, ltb, leb, ◌==◌, if◌then◌else◌, Bool-cases, Option-cases,
}
use phono_console.Music.Requests.{
  submit, Key, same_key, Request, PlayRequests, find, Answer, suppressed, submitted,
  play_vinyl_source, finish, forget, invalidate_play_requests,
}
use phono_console.Music.Requests.Table.{
  same_key_refl, same_key_eq, find-put, find-put_other, find-remove_other,
}

-- The request for the key is there and may not be replaced before the limit.
guards : ℕ → Option Request → Bool
guards limit none = false
guards limit (some r) = leb limit r.retry_at

holds : Key → ℕ → PlayRequests → Bool
unfolding guards
holds key limit s = guards limit (find key s.entries)

guards-finish :
    (key : Key) (limit id : ℕ) (es : List (Key × Request))
    → guards limit
        (find key (map (λ e. (e.0, record e.1 { done = e.1.done || (e.1.id == id) })) es))
      ≡ guards limit (find key es)
unfolding guards find
guards-finish key limit id [] = refl
guards-finish key limit id ((k, r) ∷ es) = elim (Bool-cases (same_key k key)) [
  | inl h ↦ rw h refl
  | inr h ↦ rw h (guards-finish key limit id es)
]

finish-holds :
    (limit id : ℕ) (key : Key) (s : PlayRequests)
    → holds key limit s ≡ true
    → holds key limit (finish id s) ≡ true
unfolding holds finish
finish-holds limit id key s h = guards-finish key limit id s.entries ∙ h

-- What happens to the table: a caller asks at a time, a task is done, a caller's task has raised, and
-- the table is cleared.
pub data Event : Type 0 where
  asked : ℕ → Key → Event
  finished : ℕ → Event
  failed : Key → ℕ → Event
  invalidated : Event

abbrev pub is_submitted : Answer → Bool
is_submitted (suppressed id reason) = false
is_submitted (submitted id expired) = true

-- The table after an event, and whether it submitted a request for the key.
unfoldable pub happen : ℕ → Key → Event → PlayRequests → PlayRequests × Bool
unfolding play_vinyl_source finish forget invalidate_play_requests
happen timeout key (asked now k) s =
    let (s', answer) = play_vinyl_source timeout now k s in
    (s', same_key k key && is_submitted answer)
happen timeout key (finished id) s = (finish id s, false)
happen timeout key (failed k id) s = (forget k id s, false)
happen timeout key invalidated s = ((invalidate_play_requests s).0, false)

-- The number of requests for the key that a series of events submits.
unfoldable pub submissions : ℕ → Key → List Event → PlayRequests → ℕ
unfolding happen
submissions timeout key [] s = 0
submissions timeout key (e ∷ es) s =
    let (s', new) = happen timeout key e s in
    let rest = submissions timeout key es s' in if new then rest + 1 else rest

-- Nobody asks for the key from the limit on, no request for it fails, and the table is not cleared.
unfoldable pub calm : Key → ℕ → List Event → Bool
calm key limit [] = true
calm key limit (asked now k ∷ es) = (not (same_key k key) || ltb now limit) && calm key limit es
calm key limit (finished id ∷ es) = calm key limit es
calm key limit (failed k id ∷ es) = not (same_key k key) && calm key limit es
calm key limit (invalidated ∷ es) = false

false≢true : false ≢ true
false≢true h = ground arith

asked_self :
    (timeout limit now : ℕ) (key : Key) (s : PlayRequests)
    → ltb now limit ≡ true
    → holds key limit s ≡ true
    → (play_vinyl_source timeout now key s).0 ≡ s
      × is_submitted (play_vinyl_source timeout now key s).1 ≡ false
unfolding holds play_vinyl_source guards
asked_self timeout limit now key s a h = elim (Option-cases (find key s.entries)) [
  | inl e ↦ absurd (false≢true (subst (λ o. guards limit o ≡ true) e h))
  | inr (r, e) ↦
      let later : leb limit r.retry_at ≡ true = subst (λ o. guards limit o ≡ true) e h in
      let early : ltb now r.retry_at ≡ true = ground arith in
      rw (play_vinyl_source, e, early) (ground arith)
]

submit-holds :
    (timeout limit now : ℕ) (key k : Key) (expired : Option ℕ) (s : PlayRequests)
    → same_key k key ≡ false
    → holds key limit s ≡ true
    → holds key limit (submit timeout now k expired s).0 ≡ true
unfolding holds submit
submit-holds timeout limit now key k expired s d h =
    rw
      (find-put_other k key (record { id = s.sequence + 1; retry_at = now + timeout; done = false })
        s.entries d)
      h

asked-other :
    (timeout limit now : ℕ) (key k : Key) (s : PlayRequests)
    → same_key k key ≡ false
    → holds key limit s ≡ true
    → holds key limit (play_vinyl_source timeout now k s).0 ≡ true
unfolding play_vinyl_source
asked-other timeout limit now key k s d h = elim (Option-cases (find k s.entries)) [
  | inl e ↦ rw (play_vinyl_source, e) (submit-holds timeout limit now key k none s d h)
  | inr (r, e) ↦ elim (Bool-cases (not r.done || ltb now r.retry_at)) [
    | inl w ↦ rw (play_vinyl_source, e, w) h
    | inr w ↦ rw (play_vinyl_source, e, w) (submit-holds timeout limit now key k (some r.id) s d h)
  ]
]

asked-holds :
    (timeout limit now : ℕ) (key k : Key) (s : PlayRequests)
    → not (same_key k key) || ltb now limit ≡ true
    → holds key limit s ≡ true
    → holds key limit (play_vinyl_source timeout now k s).0 ≡ true
      × same_key k key && is_submitted (play_vinyl_source timeout now k s).1 ≡ false
asked-holds timeout limit now key k s a h = elim (Bool-cases (same_key k key)) [
  | inl e ↦
      let same : key ≡ k = sym (same_key_eq k key e) in
      let self =
        asked_self timeout limit now k s (ground arith)
          (subst (λ x. holds x limit s ≡ true) same h) in
      (subst (λ t. holds key limit t ≡ true) (sym self.0) h, ground (arith, self.1))
  | inr d ↦ (asked-other timeout limit now key k s d h, ground arith)
]

failed-holds :
    (limit id : ℕ) (key k : Key) (s : PlayRequests)
    → same_key k key ≡ false
    → holds key limit s ≡ true
    → holds key limit (forget k id s) ≡ true
unfolding holds forget
failed-holds limit id key k s d h = elim (Option-cases (find k s.entries)) [
  | inl e ↦ rw (forget, e) h
  | inr (r, e) ↦ elim (Bool-cases (r.id == id)) [
    | inl w ↦ rw (forget, e, w, find-remove_other k key s.entries d) h
    | inr w ↦ rw (forget, e, w) h
  ]
]

-- In a calm series after the request nothing more is submitted.
held-submissions :
    (timeout limit : ℕ) (key : Key) (es : List Event) (s : PlayRequests)
    → calm key limit es ≡ true
    → holds key limit s ≡ true
    → submissions timeout key es s ≡ 0
unfolding submissions happen calm
held-submissions timeout limit key [] s c h = refl
held-submissions timeout limit key (asked now k ∷ es) s c h =
    let next = asked-holds timeout limit now key k s (ground (arith, c)) h in
    rw (next.1) (
      held-submissions timeout limit key es (play_vinyl_source timeout now k s).0
        (ground (arith, c)) next.0)
held-submissions timeout limit key (finished id ∷ es) s c h =
    held-submissions timeout limit key es (finish id s) c (finish-holds limit id key s h)
held-submissions timeout limit key (failed k id ∷ es) s c h =
    held-submissions timeout limit key es (forget k id s) (ground (arith, c))
      (failed-holds limit id key k s (ground (arith, c)) h)
held-submissions timeout limit key (invalidated ∷ es) s c h = absurd (ground arith)

new-holds :
    (timeout now : ℕ) (key : Key) (expired : Option ℕ) (s : PlayRequests)
    → holds key (now + timeout) (submit timeout now key expired s).0 ≡ true
unfolding holds submit guards
new-holds timeout now key expired s =
    rw
      (find-put key (record { id = s.sequence + 1; retry_at = now + timeout; done = false })
        s.entries)
      (ground arith)

-- The entry that a new request leaves.
submitted-holds :
    (timeout now : ℕ) (key : Key) (s : PlayRequests)
    → is_submitted (play_vinyl_source timeout now key s).1 ≡ true
    → holds key (now + timeout) (play_vinyl_source timeout now key s).0 ≡ true
unfolding play_vinyl_source holds
submitted-holds timeout now key s a = elim (Option-cases (find key s.entries)) [
  | inl e ↦ rw (play_vinyl_source, e) (new-holds timeout now key none s)
  | inr (r, e) ↦ elim (Bool-cases (not r.done || ltb now r.retry_at)) [
    | inl w ↦ absurd (false≢true (rw (play_vinyl_source, e, w) at a))
    | inr w ↦ rw (play_vinyl_source, e, w) (new-holds timeout now key (some r.id) s)
  ]
]

-- Once a caller has submitted a request, nobody submits another one for the same source and players
-- within the timeout, however often the controller asks, whether or not the first is done, and
-- whatever is asked for other sources, unless it fails or the table is cleared.
pub submitted_once :
    (timeout now id : ℕ) (key : Key) (expired : Option ℕ) (es : List Event) (s : PlayRequests)
    → (play_vinyl_source timeout now key s).1 ≡ submitted id expired
    → calm key (now + timeout) es ≡ true
    → submissions timeout key (asked now key ∷ es) s ≡ 1
unfolding submissions happen
submitted_once timeout now id key expired es s a c =
    let new : is_submitted (play_vinyl_source timeout now key s).1 ≡ true = rw a refl in
    let first : same_key key key && is_submitted (play_vinyl_source timeout now key s).1 ≡ true =
      rw (same_key_refl key) new in
    rw
      (
        first,
        held-submissions timeout (now + timeout) key es (play_vinyl_source timeout now key s).0 c
            (submitted-holds timeout now key s new),
      )
      refl

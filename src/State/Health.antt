-- ===== src/State/Health.antt =====
-- The components and the health report of `StateStore` (src/phono_console/state.py).
use text.Mathlib.Text.{◌==◌ as str_eq}
use text.Mathlib.TextEquality.{eq_iff}
use mathlib.Core.Option
use phono_console.Base.{
  ℕ, ◌+◌, ◌-◌, ◌≤◌, String, ◌≡◌, refl, sym, ◌∙◌, ◌≢◌, ◌↔◌, inl, inr, Bool, true, false, ◌&&◌,
  Option, none, some, List, [], ◌∷◌, arith, Bool-cases, All,
}
use phono_console.State.{
  StateStore, Component, ComponentStatus, degraded, failed, same_status, get_component,
  put_component, with_status, no_names, within, health_snapshot,
}

differ : (a b : String) → a ≢ b → str_eq a b ≡ false
differ a b h = elim (Bool-cases (str_eq a b)) [
  | inl same ↦ absurd (h ((eq_iff a b).0 same))
  | inr other ↦ other
]

module _ {D : Type 0} where
  pub get-put :
      (name : String) (c : Component D) (cs : List (String × Component D))
      → get_component name (put_component name c cs) ≡ some c
  unfolding get_component put_component
  get-put name c [] = rw ((eq_iff name name).1 refl) refl
  get-put name c ((key, old) ∷ rest) = elim (Bool-cases (str_eq key name)) [
    | inl same ↦ rw (same, same) refl
    | inr other ↦ rw (other, other) (get-put name c rest)
  ]

  pub get-put_other :
      (name other : String) (c : Component D) (cs : List (String × Component D))
      → name ≢ other
      → get_component other (put_component name c cs) ≡ get_component other cs
  unfolding get_component put_component
  get-put_other name other c [] h = rw (differ name other h) refl
  get-put_other name other c ((key, old) ∷ rest) h = elim (Bool-cases (str_eq key name)) [
    | inl same ↦
        let away : str_eq key other ≡ false =
          differ key other (λ e. h (sym ((eq_iff key name).0 same) ∙ e)) in
        rw (same, away) refl
    | inr another ↦ elim (Bool-cases (str_eq key other)) [
      | inl found ↦ rw (another, found) refl
      | inr missed ↦ rw (another, missed) (get-put_other name other c rest h)
    ]
  ]

-- No component has the status.
abbrev pub NoneIs : {D : Type 0} → ComponentStatus → List (String × Component D) → Type 0
NoneIs status components = All (λ entry. entry.1.status ≢ status) components

-- The last status was set within the limit.
abbrev pub Fresh : {D : Type 0} → ℕ → ℕ → StateStore D → Type 0
Fresh limit now s = (t : ℕ) × (s.last_status_at ≡ some t) × (now ≤ t + limit)

same_status_iff : (a b : ComponentStatus) → (same_status a b ≡ true) ↔ (a ≡ b)
same_status_iff a b = ((λ h. ground arith), λ h. ground arith)

with_status-NoneIs :
    {D : Type 0} (status : ComponentStatus) (cs : List (String × Component D))
    → (no_names (with_status status cs) ≡ true) ↔ NoneIs status cs
unfolding with_status
with_status-NoneIs status [] = ((λ h. tt), λ h. refl)
with_status-NoneIs status ((name, c) ∷ cs) =
    let rest = with_status-NoneIs status cs in
    elim (Bool-cases (same_status c.status status)) [
      | inl is ↦ (
        (λ h. absurd (ground arith)),
        (λ h. absurd (h.0 ((same_status_iff c.status status).0 is))),
      )
      | inr is_not ↦ (
        (λ h. ((λ e. cc ((same_status_iff c.status status).1 e, is_not)), rest.0 (ground arith))),
        (λ h. rw is_not (rest.1 h.1)),
      )
    ]

within-Fresh :
    {D : Type 0} (limit now : ℕ) (s : StateStore D)
    → (within limit (Option.map (λ t. now - t) s.last_status_at) ≡ true) ↔ Fresh limit now s
within-Fresh limit now s = go s.last_status_at
  where
    go :
        (o : Option ℕ)
        → (within limit (Option.map (λ t. now - t) o) ≡ true)
          ↔ ((t : ℕ) × (o ≡ some t) × (now ≤ t + limit))
    go none = ((λ h. cc), λ h. cc (h.1))
    go (some t) = ((λ h. (t, refl, ground arith)), λ h. ground arith)

both_iff :
    {P Q : Type 0} (a b : Bool) → (a ≡ true) ↔ P → (b ≡ true) ↔ Q → ((a && b) ≡ true) ↔ (P × Q)
both_iff true b p q = ((λ h. (p.0 refl, q.0 h)), λ h. q.1 h.1)
both_iff false b p q = ((λ h. cc), λ h. p.1 h.0)

-- The report says operational exactly if a status was set within the limit and no component has
-- failed, and ok exactly if in addition none is degraded.
pub health_snapshot_iff :
    {D : Type 0} (limit now : ℕ) (s : StateStore D)
    → (((health_snapshot limit now s).operational ≡ true)
        ↔ (Fresh limit now s × NoneIs failed s.components))
      × (((health_snapshot limit now s).is_ok ≡ true)
          ↔ (Fresh limit now s × NoneIs failed s.components × NoneIs degraded s.components))
unfolding health_snapshot
health_snapshot_iff limit now s =
    let operational =
      both_iff _ _ (within-Fresh limit now s) (with_status-NoneIs failed s.components) in
    let ok = both_iff _ _ operational (with_status-NoneIs degraded s.components) in
    (operational, ((λ h. ((ok.0 h).0.0, (ok.0 h).0.1, (ok.0 h).1)), λ h. ok.1 ((h.0, h.1), h.2)))

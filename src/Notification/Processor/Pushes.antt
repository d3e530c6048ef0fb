-- ===== src/Notification/Processor/Pushes.antt =====
-- What steps of the jobs of src/components/queues/notification/notification.processor.ts hand to
-- Firebase: lemmas on each way to put steps together.
use mathlib.Core.List.{append_assoc, append-nil}
use aura_explorer_api.Prelude.{◌≡◌, ◌∙◌, refl, sym, ap, List, [], ◌++◌, All, All-append, inl, inr}
use aura_explorer_api.Exec.{Result, ok, err, Exec, pure, lift, ◌>>=◌, try_catch, Result-cases}
use aura_explorer_api.Notification.Desk.{Desk, Push}

module _ (P : Push → Type 0) where
  -- What was handed to Firebase between two states, all of which satisfies `P`.
  abbrev pub Pushes : Desk → Desk → Type 0
  Pushes s s' = (new : List Push) × (s'.pushed ≡ s.pushed ++ new) × All P new

  pub none_pushed : (s s' : Desk) → s'.pushed ≡ s.pushed → Pushes s s'
  none_pushed s s' same = ([], same ∙ sym (append-nil s.pushed), tt)

  pub then_pushed : (s s' s'' : Desk) → Pushes s s' → Pushes s' s'' → Pushes s s''
  then_pushed s s' s'' (new, e, h) (more, e', h') = (
    new ++ more,
    e' ∙ (ap (λ q. q ++ more) e ∙ append_assoc s.pushed new more),
    All-append P new more h h',
  )

  pub lift_pushed :
      {A : Type 0} (r : Result A) (f : A → Exec Desk (Unit {0})) (s : Desk)
      → ((a : A) → r ≡ ok a → Pushes s (f a s).1)
      → Pushes s ((lift r >>= f) s).1
  lift_pushed (ok a) f s h = h a refl
  lift_pushed (err e) f s h = none_pushed s s refl

  pub bind_pushed :
      {A : Type 0} (m : Exec Desk A) (f : A → Exec Desk (Unit {0})) (s : Desk)
      → Pushes s (m s).1
      → ((a : A) → Pushes (m s).1 (f a (m s).1).1)
      → Pushes s ((m >>= f) s).1
  bind_pushed m f s h later = elim (Result-cases (m s).0) [
    | inl (a, done) ↦ rw done (then_pushed s (m s).1 (f a (m s).1).1 h (later a))
    | inr (e, failed) ↦ rw failed h
  ]

  pub quiet_pushed :
      {A : Type 0} (m : Exec Desk A) (s : Desk) → (m s).1.pushed ≡ s.pushed → Pushes s (m s).1
  quiet_pushed m s same = none_pushed s (m s).1 same

  pub try_pushed :
      (m : Exec Desk (Unit {0})) (s : Desk)
      → Pushes s (m s).1
      → Pushes s (try_catch m (λ _. pure tt) s).1
  try_pushed m s h = elim (Result-cases (m s).0) [
    | inl (a, done) ↦ rw done h
    | inr (e, failed) ↦ rw failed h
  ]

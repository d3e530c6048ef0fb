-- ===== src/Exec/Inversion.antt =====
-- What a block that returned has done: one lemma for each kind of its first step.
use aura_explorer_api.Prelude.{◌≡◌, ◌∙◌, ap, Bool, true, false, refl, Option, none, some, inl, inr}
use aura_explorer_api.Exec.{
  Exception, ok, Exec, or_raise, raise_if, ◌>>=◌, ◌>>◌, try_catch, raise, Result-cases,
}

module _ {ℓ} {S A B : Type ℓ} where
  pub bind-eq-ok :
      (m : Exec S A) (f : A → Exec S B) (s s'' : S) (b : B)
      → (m >>= f) s ≡ (ok b, s'')
      → (a : A) × (s' : S) × (m s ≡ (ok a, s')) × (f a s' ≡ (ok b, s''))
  bind-eq-ok m f s s'' b h = elim (Result-cases (m s).0) [
    | inl (a, done) ↦ (a, (m s).1, ap (λ r. (r, (m s).1)) done, rw done at h)
    | inr (e, failed) ↦ let h' = rw failed at h in cc
  ]

  pub then-eq-ok :
      (m : Exec S A) (n : Exec S B) (s s'' : S) (b : B)
      → (m >> n) s ≡ (ok b, s'')
      → (a : A) × (s' : S) × (m s ≡ (ok a, s')) × (n s' ≡ (ok b, s''))
  then-eq-ok m n s s'' b h = bind-eq-ok m (λ _. n) s s'' b h

  pub or_raise-eq-ok :
      (e : Exception) (o : Option A) (f : A → Exec S B) (s s'' : S) (b : B)
      → (or_raise e o >>= f) s ≡ (ok b, s'')
      → (a : A) × (o ≡ some a) × (f a s ≡ (ok b, s''))
  or_raise-eq-ok e none f s s'' b h = cc
  or_raise-eq-ok e (some a) f s s'' b h = (a, refl, h)

module _ {S B : Type 0} where
  pub raise_if-eq-ok :
      (t : Bool) (e : Exception) (n : Exec S B) (s s'' : S) (b : B)
      → (raise_if t e >> n) s ≡ (ok b, s'')
      → (t ≡ false) × (n s ≡ (ok b, s''))
  raise_if-eq-ok true e n s s'' b h = cc
  raise_if-eq-ok false e n s s'' b h = (refl, h)

  -- A handler that only throws again lets no failed body return.
  pub rethrow-eq-ok :
      (m : Exec S B) (f : Exception → Exception) (s s'' : S) (b : B)
      → try_catch m (λ e. raise (f e)) s ≡ (ok b, s'')
      → m s ≡ (ok b, s'')
  rethrow-eq-ok m f s s'' b h = elim (Result-cases (m s).0) [
    | inl (a, done) ↦ ap (λ r. (r, (m s).1)) done ∙ (rw done at h)
    | inr (e, failed) ↦ let h' = rw failed at h in cc
  ]

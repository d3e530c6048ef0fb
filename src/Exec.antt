-- ===== src/Exec.antt =====
-- Service methods: they read and write the stores of the application and may throw. What was
-- written before a throw stays written, so the state comes back beside the exception too.
pub mod Inversion
pub mod Results
use aura_explorer_api.Prelude.{
  String, ◌≡◌, ◌⊎◌, inl, inr, refl, Bool, true, false, Option, none, some,
}

-- The exceptions of the source: those of @nestjs/common with their message, TypeORM's
-- EntityNotFoundError and the driver's ER_DUP_ENTRY, and every other Error.
pub data Exception : Type 0 where
  bad_request : String → Exception
  unauthorized : String → Exception
  not_found : String → Exception
  entity_not_found : String → Exception
  dup_entry : String → Exception
  failure : String → Exception

-- `error.message`
abbrev pub message : Exception → String
message (bad_request m) = m
message (unauthorized m) = m
message (not_found m) = m
message (entity_not_found m) = m
message (dup_entry m) = m
message (failure m) = m

pub data Result {ℓ} (A : Type ℓ) : Type ℓ where
  ok : A → Result A
  err : Exception → Result A

abbrev pub Exec {ℓ} : Type ℓ → Type ℓ → Type ℓ
Exec S A = S → Result A × S

module _ {ℓ} {S A : Type ℓ} where
  abbrev pub pure : A → Exec S A
  pure a s = (ok a, s)

  -- `throw e`
  abbrev pub raise : Exception → Exec S A
  raise e s = (err e, s)

  abbrev pub gets : (S → A) → Exec S A
  gets f s = (ok (f s), s)

  abbrev pub lift : Result A → Exec S A
  lift r s = (r, s)

  -- What was found, or an exception where nothing was.
  abbrev pub or_raise : Exception → Option A → Exec S A
  or_raise e none s = (err e, s)
  or_raise e (some a) s = (ok a, s)

-- `raise_if b e` is `if (b) throw e`.
abbrev pub raise_if : {S : Type 0} → Bool → Exception → Exec S (Unit {0})
raise_if true e s = (err e, s)
raise_if false e s = (ok tt, s)

module _ {ℓ} {S A B : Type ℓ} where
  abbrev pub continue : Result A → (A → Exec S B) → Exec S B
  continue (ok a) f s = f a s
  continue (err e) f s = (err e, s)

  infixl 10 ◌>>=◌ ◌>>◌
  abbrev pub ◌>>=◌ : Exec S A → (A → Exec S B) → Exec S B
  ◌>>=◌ m f s = continue (m s).0 f (m s).1

  abbrev pub ◌>>◌ : Exec S A → Exec S B → Exec S B
  ◌>>◌ m n s = continue (m s).0 (λ _. n) (m s).1

module _ {ℓ} {S A : Type ℓ} where
  abbrev caught : Result A → (Exception → Exec S A) → Exec S A
  caught (ok a) h s = (ok a, s)
  caught (err e) h s = h e s

  -- `try { m } catch (e) { h(e) }`
  abbrev pub try_catch : Exec S A → (Exception → Exec S A) → Exec S A
  try_catch m h s = caught (m s).0 h (m s).1

pub Result-cases {ℓ} :
    {A : Type ℓ} (r : Result A) → ((a : A) × (r ≡ ok a)) ⊎ ((e : Exception) × (r ≡ err e))
Result-cases (ok a) = inl (a, refl)
Result-cases (err e) = inr (e, refl)

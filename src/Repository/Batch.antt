-- ===== src/Repository/Batch.antt =====
-- `save` of a list of entities, which TypeORM wraps in a transaction: every row is written, or none.
use aura_explorer_api.Prelude.{
  ℕ, ◌<◌, ◌≤◌, ◌≡◌, refl, Bool, true, false, ◌==◌, nat_eq, List, [], ◌∷◌, arith, count_if, All, ◌∙◌,
  Bool-cases, inl, inr,
}
use aura_explorer_api.Exec.{Result, ok, err, Result-cases}
use aura_explorer_api.Repository.{Keyed, Repository, update_where}
use aura_explorer_api.Repository.Rows.{Written-cases, All-imp, count_if-update_where_off}

abbrev pub Write : Type 0 → Type 0
Write Row = Row → List Row → Result Row × List Row

module _ {Row : Type 0} where
  abbrev pub after_row :
      Result Row
      → (List Row → Result (Unit {0}) × List Row)
      → List Row
      → Result (Unit {0}) × List Row
  after_row (ok _) rest t = rest t
  after_row (err e) rest t = (err e, t)

  abbrev pub write_each : Write Row → List Row → List Row → Result (Unit {0}) × List Row
  write_each write [] t = (ok tt, t)
  write_each write (r ∷ rs) t = after_row (write r t).0 (write_each write rs) (write r t).1

  abbrev pub committed : List Row → Result (Unit {0}) → List Row → Result (Unit {0}) × List Row
  committed t (ok _) t' = (ok tt, t')
  committed t (err e) t' = (err e, t)

  abbrev pub transaction : Write Row → List Row → List Row → Result (Unit {0}) × List Row
  transaction write rs t = committed t (write_each write rs t).0 (write_each write rs t).1

module _ {Row : Type 0} {keyed : Keyed Row} (repo : Repository keyed) where
  abbrev pub has_id : ℕ → Row → Bool
  has_id n q = keyed.id q == n

  -- Saving a row changes no key.
  pub count_if-save :
      (n : ℕ) (r : Row) (t : List Row)
      → count_if (has_id n) (update_where (has_id (keyed.id r)) (λ _. r) t) ≡ count_if (has_id n) t
  count_if-save n r [] = refl
  count_if-save n r (q ∷ t) = elim (Bool-cases (keyed.id q == keyed.id r)) [
    | inl e ↦
        let same : keyed.id q ≡ keyed.id r = ground arith in
        ground (arith, count_if-save n r t, same)
    | inr e ↦ ground (arith, count_if-save n r t)
  ]

  -- Rows of the table by their keys that do not satisfy `p`.
  abbrev pub IsSavable : (Row → Bool) → List Row → List Row → Type 0
  IsSavable p t rs = All (λ r. (0 < count_if (has_id (keyed.id r)) t) × (p r ≡ false)) rs

  pub IsSavable-save :
      (p : Row → Bool) (r : Row) (rs t : List Row)
      → IsSavable p t rs
      → IsSavable p (update_where (has_id (keyed.id r)) (λ _. r) t) rs
  IsSavable-save p r rs t h =
      All-imp _ _ rs (λ q k. (rw (count_if-save (keyed.id q) r t) k.0, k.1)) h

  unsatisfied :
      (p : Row → Bool) (w : Row → Bool) (r : Row) (t : List Row)
      → p r ≡ false
      → All (λ q. w q ≡ true → p r ≡ true → p q ≡ true) t
  unsatisfied p w r [] h = tt
  unsatisfied p w r (q ∷ t) h = (λ on counted. cc, unsatisfied p w r t h)

  write_each-count_if :
      (p : Row → Bool) (rs t : List Row)
      → IsSavable p t rs
      → count_if p (write_each repo.save rs t).1 ≤ count_if p t
  write_each-count_if p [] t h = omega arith
  write_each-count_if p (r ∷ rs) t ((there, off), h) =
      let t' = update_where (has_id (keyed.id r)) (λ _. r) t in
      elim (Written-cases keyed t t' (repo.save r t) (repo.save_lem r t there)) [
        | inl (e, failed) ↦ rw failed (omega arith)
        | inr (x, done) ↦
            let here =
              count_if-update_where_off p (has_id (keyed.id r)) (λ _. r) t
                (unsatisfied p _ r t off) in
            let later = write_each-count_if p rs t' (IsSavable-save p r rs t h) in
            rw done (omega (arith, here, later))
      ]

  -- Saving rows that do not satisfy `p` brings in no row that does.
  pub transaction-count_if :
      (p : Row → Bool) (rs t : List Row)
      → IsSavable p t rs
      → count_if p (transaction repo.save rs t).1 ≤ count_if p t
  transaction-count_if p rs t h = elim (Result-cases (write_each repo.save rs t).0) [
    | inl (_, done) ↦ rw done (write_each-count_if p rs t h)
    | inr (e, failed) ↦ rw failed (omega arith)
  ]

  -- Saving rows of the table by their keys changes no key.
  abbrev pub AreKnown : List Row → List Row → Type 0
  AreKnown t rs = IsSavable (λ _. false) t rs

  write_each-keys :
      (n : ℕ) (rs t : List Row)
      → AreKnown t rs
      → count_if (has_id n) (write_each repo.save rs t).1 ≡ count_if (has_id n) t
  write_each-keys n [] t h = refl
  write_each-keys n (r ∷ rs) t ((there, off), h) =
      let t' = update_where (has_id (keyed.id r)) (λ _. r) t in
      elim (Written-cases keyed t t' (repo.save r t) (repo.save_lem r t there)) [
        | inl (e, failed) ↦ rw failed refl
        | inr (x, done) ↦
            let later = write_each-keys n rs t' (IsSavable-save (λ _. false) r rs t h) in
            rw done (later ∙ count_if-save n r t)
      ]

  pub transaction-keys :
      (n : ℕ) (rs t : List Row)
      → AreKnown t rs
      → count_if (has_id n) (transaction repo.save rs t).1 ≡ count_if (has_id n) t
  transaction-keys n rs t h = elim (Result-cases (write_each repo.save rs t).0) [
    | inl (_, done) ↦ rw done (write_each-keys n rs t h)
    | inr (e, failed) ↦ rw failed refl
  ]

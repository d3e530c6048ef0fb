-- ===== src/Repository.antt =====
-- TypeORM's Repository<Entity>, as far as the services rely on it. The library is not part of the
-- repository, so it is an interface: its operations on the rows of one table, with the documented
-- behaviour as laws. A `where` condition is a Boolean function of a row; the list of a table's rows
-- stands for its contents, and no operation promises an order of what it finds.
pub mod Memory
pub mod Rows
pub mod Batch
pub mod Members
pub mod Builder
use mathlib.Core.List.{Memᴰ}
use aura_explorer_api.Prelude.{
  ℕ, ◌<◌, ◌≡◌, Bool, true, false, not, Option, none, some, List, [], ◌∷◌, ◌++◌, map, ◌⊎◌, ◌==◌,
  nat_eq, if◌then◌else◌, keep_if, count_if,
}
use aura_explorer_api.Exec.{Exception, Result, ok, err}

-- The primary key of an entity.
pub record Keyed (Row : Type 0) : Type 0 where
  pub id : Row → ℕ
  pub with_id : ℕ → Row → Row
  pub id-with_id : (n : ℕ) (r : Row) → id (with_id n r) ≡ n

-- `UPDATE … SET … WHERE …` on the rows of a table.
abbrev pub update_where : {Row : Type 0} → (Row → Bool) → (Row → Row) → List Row → List Row
update_where w f [] = []
update_where w f (r ∷ t) = elim (w r) [ true ↦ f r | false ↦ r ] ∷ update_where w f t

abbrev pub delete_where : {Row : Type 0} → (Row → Bool) → List Row → List Row
delete_where w t = keep_if (λ r. not (w r)) t

module _ {Row : Type 0} (keyed : Keyed Row) where
  -- An insertion fails and changes nothing, or adds the row under a key that was not in use.
  abbrev pub Inserted : Row → List Row → Result Row × List Row → Type 0
  Inserted r t (err e, t') = t' ≡ t
  Inserted r t (ok r', t') =
      (t' ≡ t ++ r' ∷ [])
      × (r' ≡ keyed.with_id (keyed.id r') r)
      × (count_if (λ q. keyed.id q == keyed.id r') t ≡ 0)

  -- A write to the rows that satisfy `w` fails and changes nothing, or is made to all of them.
  abbrev pub Written : {A : Type 0} → List Row → List Row → Result A × List Row → Type 0
  Written t new (err e, t') = t' ≡ t
  Written t new (ok a, t') = t' ≡ new

pub record Repository {Row : Type 0} (keyed : Keyed Row) : Type 0 where
  pub find : (Row → Bool) → List Row → List Row
  pub find_one : (Row → Bool) → List Row → Option Row
  pub count : (Row → Bool) → List Row → ℕ
  -- `save` of an entity without a key, and of one with a key.
  pub insert : Row → List Row → Result Row × List Row
  pub save : Row → List Row → Result Row × List Row
  pub update : (Row → Bool) → (Row → Row) → List Row → Result ℕ × List Row
  pub delete : (Row → Bool) → List Row → Result ℕ × List Row
  pub count-find :
      (w p : Row → Bool) (t : List Row) → count_if p (find w t) ≡ count_if p (keep_if w t)
  pub find_one-some :
      (w : Row → Bool) (t : List Row) (r : Row) → find_one w t ≡ some r → Memᴰ r t × (w r ≡ true)
  pub find_one-none : (w : Row → Bool) (t : List Row) → find_one w t ≡ none → count_if w t ≡ 0
  pub count_lem : (w : Row → Bool) (t : List Row) → count w t ≡ count_if w t
  pub insert_lem : (r : Row) (t : List Row) → Inserted keyed r t (insert r t)
  pub save_lem :
      (r : Row) (t : List Row)
      → 0 < count_if (λ q. keyed.id q == keyed.id r) t
      → Written keyed t (update_where (λ q. keyed.id q == keyed.id r) (λ _. r) t) (save r t)
  pub update_lem :
      (w : Row → Bool) (f : Row → Row) (t : List Row)
      → Written keyed t (update_where w f t) (update w f t)
  pub delete_lem : (w : Row → Bool) (t : List Row) → Written keyed t (delete_where w t) (delete w t)

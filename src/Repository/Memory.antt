-- ===== src/Repository/Memory.antt =====
-- A repository kept in memory, which shows that the laws of the interface can be met: a new row gets
-- the key above those in use, and no operation fails.
use Prim.Native.Nat.{max}
use mathlib.Core.List.{Memᴰ}
use aura_explorer_api.Prelude.{
  ℕ, zero, take, drop, suc, ◌≤◌, ◌≡◌, refl, Bool, true, some, none, List, [], ◌∷◌, ◌++◌, arith,
  ◌==◌, nat_eq, keep_if, first, count_if, Bool-cases, inl, inr,
}
use aura_explorer_api.Exec.{Result, ok}
use aura_explorer_api.Repository.Builder.{Builder}
use aura_explorer_api.Repository.{Keyed, Repository, update_where, delete_where}

module _ {Row : Type 0} (keyed : Keyed Row) where
  abbrev last_id : List Row → ℕ
  last_id [] = 0
  last_id (r ∷ t) = max (keyed.id r) (last_id t)

  last_id-unused :
      (n : ℕ) (t : List Row) → suc (last_id t) ≤ n → count_if (λ q. keyed.id q == n) t ≡ 0
  last_id-unused n [] h = refl
  last_id-unused n (r ∷ t) h = ground (arith, last_id-unused n t)

  abbrev insert_row : Row → List Row → Result Row × List Row
  insert_row r t = let new = keyed.with_id (suc (last_id t)) r in (ok new, t ++ new ∷ [])

  pub insert_row_lem :
      (r : Row) (t : List Row)
      → count_if (λ q. keyed.id q == keyed.id (keyed.with_id (suc (last_id t)) r)) t ≡ 0
  insert_row_lem r t = rw keyed.id-with_id (last_id-unused (suc (last_id t)) t (omega arith))

  pub insert_row-with_id :
      (r : Row) (t : List Row)
      → keyed.with_id (suc (last_id t)) r
        ≡ keyed.with_id (keyed.id (keyed.with_id (suc (last_id t)) r)) r
  insert_row-with_id r t = rw keyed.id-with_id

module _ {Row : Type 0} (w : Row → Bool) where
  pub first-some : (t : List Row) (r : Row) → first w t ≡ some r → Memᴰ r t × (w r ≡ true)
  first-some [] r e = cc
  first-some (q ∷ t) r e = elim (Bool-cases (w q)) [
    | inl holds ↦ let same : q ≡ r = ground arith in (Memᴰ.head (cc), rw (← same) holds)
    | inr fails ↦ let found = first-some t r (ground arith) in (Memᴰ.tail found.0, found.1)
  ]

  pub first-none : (t : List Row) → first w t ≡ none → count_if w t ≡ 0
  first-none [] e = refl
  first-none (q ∷ t) e = ground (arith, first-none t)

abbrev pub memory : {Row : Type 0} (keyed : Keyed Row) → Repository keyed
memory keyed = record {
  find = keep_if;
  find_one = first;
  count = count_if;
  insert = insert_row keyed;
  save = λ r t. (ok r, update_where (λ q. keyed.id q == keyed.id r) (λ _. r) t);
  update = λ w f t. (ok (count_if w t), update_where w f t);
  delete = λ w t. (ok (count_if w t), delete_where w t);
  count-find = λ w p t. refl;
  find_one-some = first-some;
  find_one-none = first-none;
  count_lem = λ w t. refl;
  insert_lem = λ r t. (refl, insert_row-with_id keyed r t, insert_row_lem keyed r t);
  save_lem = λ r t _. refl;
  update_lem = λ w f t. refl;
  delete_lem = λ w t. refl;
}

module _ {Row : Type 0} (p : Row → Bool) where
  count_if-take_le : (n : ℕ) (xs : List Row) → count_if p (take n xs) ≤ count_if p xs
  count_if-take_le zero xs = omega arith
  count_if-take_le (suc n) [] = omega arith
  count_if-take_le (suc n) (x ∷ xs) = omega (arith, count_if-take_le n xs)

  count_if-drop_le : (n : ℕ) (xs : List Row) → count_if p (drop n xs) ≤ count_if p xs
  count_if-drop_le zero xs = omega arith
  count_if-drop_le (suc n) [] = omega arith
  count_if-drop_le (suc n) (x ∷ xs) = ground (arith, count_if-drop_le n xs)

  pub count_if-page_le :
      (limit offset : ℕ) (ts xs : List Row)
      → ok (take limit (drop offset ts)) ≡ ok xs
      → count_if p xs ≤ count_if p ts
  count_if-page_le limit offset ts xs h =
      let same : take limit (drop offset ts) ≡ xs = cc in
      rw (← same)
        (omega (arith, count_if-take_le limit (drop offset ts), count_if-drop_le offset ts))

-- A builder that keeps the order of the table.
abbrev pub table_order : {Row Order : Type 0} → Builder Row Order
table_order = record {
  sorted = λ o ts. ts;
  page = λ limit offset ts. ok (take limit (drop offset ts));
  count-sorted = λ o p ts. refl;
  page_lem = λ limit offset ts h. refl;
  count-page_le = λ p limit offset ts xs h. count_if-page_le p limit offset ts xs h;
}

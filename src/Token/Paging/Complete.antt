-- ===== src/Token/Paging/Complete.antt =====
-- The paged query of token.processor.ts ends and misses nothing.
use aura_explorer_api.Prelude.{
  ℕ, zero, suc, ◌≡◌, ◌<◌, ◌∙◌, sym, ap, refl, Bool, true, false, Option, none, some, List, [], ◌∷◌,
  map, length, take, drop, take-drop, take_short, length-append, keep_if, ltb, ◌==◌, nat_eq,
  nat_beq_iff, Bool-cases, inl, inr, arith,
}
use mathlib.Core.List.{map-append}
use aura_explorer_api.Prelude.{ltb_irrefl, ltb_trans}
use aura_explorer_api.Prelude.Pages.{
  Order, is_beyond, Ordered, keep_if-none, last_key_of_full, next_page,
}
use aura_explorer_api.Exec.{ok}
use aura_explorer_api.Token.Paging.{
  Paged, Answer, last_id, append_page, read_pages, get_data_with_pagination, new_data,
}

abbrev pub above : Order
above = record { beyond = ltb; irrefl = ltb_irrefl; trans = ltb_trans }

module _ {Item : Type 0} (paged : Paged Item) where
  -- `id: { _gt: $id_gt }`, which holds of every item where no key is given.
  abbrev pub is_above : Option ℕ → Item → Bool
  is_above after x = is_beyond paged.id above after x

  -- `order_by: { id: asc }`
  abbrev pub Ascending : List Item → Type 0
  Ascending xs = Ordered paged.id above xs

  last_id-prepare : (xs : List Item) → last_id paged (map paged.prepare xs) ≡ last_id paged xs
  last_id-prepare [] = refl
  last_id-prepare (x ∷ xs) = ground (arith, last_id-prepare xs, paged.id-prepare x)

  module _ (limit rounds : ℕ) (fetch : Option ℕ → Answer Item) (after : Option ℕ) (page : List Item)
      (answer : new_data (fetch after) ≡ ok page) where
    read_pages-short :
        (length page == limit) ≡ false
        → read_pages paged limit (suc rounds) fetch after ≡ some (ok (map paged.prepare page))
    unfolding read_pages
    read_pages-short short = ground arith

    read_pages-full :
        (length page == limit) ≡ true
        → read_pages paged limit (suc rounds) fetch after
          ≡ append_page paged
              (map paged.prepare page)
              (read_pages paged limit rounds fetch (last_id paged (map paged.prepare page)))
    unfolding read_pages
    read_pages-full full = ground arith

module _ {Item : Type 0} (paged : Paged Item) (n : ℕ) (table : List Item) where
  -- The indexer answers with the first items above the key.
  abbrev pub Answers : (Option ℕ → Answer Item) → Type 0
  Answers fetch =
      (after : Option ℕ)
      → fetch after ≡ some (some (take (suc n) (keep_if (is_above paged after) table)))

  module _ (ascending : Ascending paged table) (fetch : Option ℕ → Answer Item)
      (answers : Answers fetch) where
    read_pages_all :
        (rounds : ℕ) (after : Option ℕ) (rest : List Item)
        → keep_if (is_above paged after) table ≡ rest
        → length rest < rounds
        → read_pages paged (suc n) rounds fetch after ≡ some (ok (map paged.prepare rest))
    read_pages_all zero after rest h few = absurd (omega arith)
    read_pages_all (suc rounds) after rest h few =
        let page = take (suc n) rest in
        let answer : new_data (fetch after) ≡ ok page = rw (answers after, h) refl in
        elim (Bool-cases (length page == suc n)) [
          | inr short ↦
              read_pages-short paged (suc n) rounds fetch after page answer short
              ∙ ap (λ xs. some (ok (map paged.prepare xs)))
                  (take_short (suc n) rest (λ e. ground arith))
          | inl full ↦
              let e : length page ≡ suc n = (nat_beq_iff _ _).0 full in
              let (k, found) = last_key_of_full paged.id n rest e in
              let left = drop (suc n) rest in
              let whole = take-drop (suc n) rest in
              let fewer : length left < rounds =
                omega (arith, ap length whole, length-append page left) in
              read_pages-full paged (suc n) rounds fetch after page answer full
              ∙ rw
                  (
                    last_id-prepare paged page,
                    found,
                    read_pages_all rounds (some k) left
                        (next_page paged.id above table after rest (suc n) k ascending h found)
                        fewer,
                  )
                  (ap (λ xs. some (ok xs))
                    (sym (map-append paged.prepare page left) ∙ ap (map paged.prepare) whole))
        ]

module _ {Item : Type 0} (paged : Paged Item) (table : List Item) where
  -- Against an indexer that answers every page with the first hundred items above the key, in the
  -- order of their keys, the paged query ends after at most one round more than there are items, and
  -- gives every item once, prepared and without its key.
  pub get_data_with_pagination_all :
      (fetch : Option ℕ → Answer Item) (rounds : ℕ)
      → Ascending paged table
      → Answers paged 99 table fetch
      → length table < rounds
      → get_data_with_pagination paged rounds fetch
        ≡ some (ok (map paged.without_id (map paged.prepare table)))
  unfolding get_data_with_pagination
  get_data_with_pagination_all fetch rounds ascending answers few =
      rw
        (read_pages_all paged 99 table ascending fetch answers rounds none table
          (keep_if-none paged.id above table) few)
        refl

-- ===== src/Prelude/Pages.antt =====
-- Pages of an ordered list. A page is asked for beyond the key of the last item of the page before it.
use Prim.Native.Nat.{ℕ, zero, suc}
use mathlib.Core.Path.{◌≡◌, refl, sym, ap, subst, ◌∙◌}
use mathlib.Core.Logic.{inl, inr, ◌⊎◌}
use mathlib.Core.Bool.{Bool, true, false}
use mathlib.Core.Option.{Option, none, some}
use mathlib.Core.List.{List, [], ◌∷◌}
use native.Mathlib.Omega.{arith}
use aura_explorer_api.Prelude.Lists.{length, take, drop, keep_if, All, All-keep_if}

option_cases : {A : Type 0} (o : Option A) → (o ≡ none) ⊎ ((a : A) × (o ≡ some a))
option_cases none = inl refl
option_cases (some a) = inr (a, refl)

bool_cases : (b : Bool) → (b ≡ true) ⊎ (b ≡ false)
bool_cases true = inl refl
bool_cases false = inr refl

-- The key of the last item.
abbrev pub last_key : {Item : Type 0} → (Item → ℕ) → List Item → Option ℕ
last_key key [] = none
last_key key (x ∷ xs) = elim (last_key key xs) [ none ↦ some (key x) | some k ↦ some k ]

-- A strict order of keys, as a test.
pub record Order : Type 0 where
  pub beyond : ℕ → ℕ → Bool
  pub irrefl : (k : ℕ) → beyond k k ≡ false
  pub trans : (a b c : ℕ) → beyond a b ≡ true → beyond b c ≡ true → beyond a c ≡ true

module _ {Item : Type 0} (key : Item → ℕ) (order : Order) where
  -- What is asked for beyond a key; everything where no key is given.
  abbrev pub is_beyond : Option ℕ → Item → Bool
  is_beyond none x = true
  is_beyond (some k) x = order.beyond k (key x)

  abbrev pub Ordered : List Item → Type 0
  Ordered [] = Unit
  Ordered (x ∷ xs) = All (λ y. order.beyond (key x) (key y) ≡ true) xs × Ordered xs

  abbrev Follows : Option ℕ → ℕ → Type 0
  Follows none k = Unit
  Follows (some a) k = order.beyond a k ≡ true

  pub keep_if-none : (xs : List Item) → keep_if (is_beyond none) xs ≡ xs
  keep_if-none [] = refl
  keep_if-none (x ∷ xs) = rw (keep_if-none xs) refl

  keep_if-keep_if :
      (after : Option ℕ) (k : ℕ) (xs : List Item)
      → Follows after k
      → keep_if (is_beyond (some k)) (keep_if (is_beyond after) xs)
        ≡ keep_if (is_beyond (some k)) xs
  keep_if-keep_if none k xs h = rw (keep_if-none xs) refl
  keep_if-keep_if (some a) k [] h = refl
  keep_if-keep_if (some a) k (x ∷ xs) h =
      ground (arith, keep_if-keep_if (some a) k xs h, order.trans a k (key x) h)

  Ordered-keep_if : (p : Item → Bool) (xs : List Item) → Ordered xs → Ordered (keep_if p xs)
  Ordered-keep_if p [] h = tt
  Ordered-keep_if p (x ∷ xs) (h, hs) = elim (bool_cases (p x)) [
    | inl e ↦ rw (Ordered, e) (All-keep_if _ p xs h, Ordered-keep_if p xs hs)
    | inr e ↦ rw (Ordered, e) (Ordered-keep_if p xs hs)
  ]

  keep_if_of_beyond :
      (m : ℕ) (xs : List Item)
      → All (λ y. order.beyond m (key y) ≡ true) xs
      → keep_if (is_beyond (some m)) xs ≡ xs
  keep_if_of_beyond m [] h = refl
  keep_if_of_beyond m (x ∷ xs) (h, hs) = ground (arith, keep_if_of_beyond m xs hs)

  pub All-is_beyond :
      (m : ℕ) (xs : List Item)
      → All (λ y. order.beyond m (key y) ≡ true) (keep_if (is_beyond (some m)) xs)
  All-is_beyond m [] = tt
  All-is_beyond m (x ∷ xs) = elim (bool_cases (order.beyond m (key x))) [
    | inl e ↦ rw (All, e) (e, All-is_beyond m xs)
    | inr e ↦ rw (All, e) (All-is_beyond m xs)
  ]

  last_key_beyond :
      (m n k : ℕ) (xs : List Item)
      → All (λ y. order.beyond m (key y) ≡ true) xs
      → last_key key (take n xs) ≡ some k
      → order.beyond m k ≡ true
  last_key_beyond m zero k xs h e = cc
  last_key_beyond m (suc n) k [] h e = cc
  last_key_beyond m (suc n) k (x ∷ xs) (h, hs) e = ground (arith, last_key_beyond m n k xs hs)

  last_key-none : (n : ℕ) (xs : List Item) → last_key key (take n xs) ≡ none → drop n xs ≡ xs
  last_key-none zero xs e = refl
  last_key-none (suc n) [] e = refl
  last_key-none (suc n) (x ∷ xs) e = ground arith

  -- Beyond the key of the last item of a page stands what follows the page.
  beyond_page :
      (n k : ℕ) (xs : List Item)
      → Ordered xs
      → last_key key (take n xs) ≡ some k
      → keep_if (is_beyond (some k)) xs ≡ drop n xs
  beyond_page zero k xs h e = cc
  beyond_page (suc n) k [] h e = cc
  beyond_page (suc n) k (x ∷ xs) (h, hs) e = elim (option_cases (last_key key (take n xs))) [
    | inl empty ↦
        let same : key x ≡ k = ground arith in
        rw (last_key-none n xs empty, ← same)
          (ground (arith, keep_if_of_beyond (key x) xs h, order.irrefl (key x)))
    | inr (j, found) ↦
        let same : j ≡ k = ground arith in
        let later : last_key key (take n xs) ≡ some k = found ∙ ap some same in
        let past = last_key_beyond (key x) n k xs h later in
        let back : order.beyond k (key x) ≡ false = not_back (key x) k past in
        ground (arith, beyond_page n k xs hs later)
  ]
    where
      not_back : (a b : ℕ) → order.beyond a b ≡ true → order.beyond b a ≡ false
      not_back a b h = ground (arith, order.trans a b a h, order.irrefl a)

  Follows-last_key :
      (after : Option ℕ) (n k : ℕ) (xs : List Item)
      → last_key key (take n (keep_if (is_beyond after) xs)) ≡ some k
      → Follows after k
  Follows-last_key none n k xs e = tt
  Follows-last_key (some a) n k xs e =
      last_key_beyond a n k (keep_if (is_beyond (some a)) xs) (All-is_beyond a xs) e

  -- What an ordered table has beyond the last key of a page is what follows the page.
  pub next_page :
      (table : List Item) (after : Option ℕ) (rest : List Item) (n k : ℕ)
      → Ordered table
      → keep_if (is_beyond after) table ≡ rest
      → last_key key (take n rest) ≡ some k
      → keep_if (is_beyond (some k)) table ≡ drop n rest
  next_page table after rest n k ordered h found =
      let found' : last_key key (take n (keep_if (is_beyond after) table)) ≡ some k = rw h found in
      sym (keep_if-keep_if after k table (Follows-last_key after n k table found'))
      ∙ ap (keep_if (is_beyond (some k))) h
      ∙ beyond_page n k rest (subst Ordered h (Ordered-keep_if (is_beyond after) table ordered))
          found

module _ {Item : Type 0} (key : Item → ℕ) where
  last_key-cons : (x : Item) (xs : List Item) → (k : ℕ) × (last_key key (x ∷ xs) ≡ some k)
  last_key-cons x xs = elim (option_cases (last_key key xs)) [
    | inl empty ↦ rw empty (key x, refl)
    | inr (k, found) ↦ rw found (k, refl)
  ]

  -- A full page has a last key.
  pub last_key_of_full :
      (n : ℕ) (xs : List Item)
      → length (take (suc n) xs) ≡ suc n
      → (k : ℕ) × (last_key key (take (suc n) xs) ≡ some k)
  last_key_of_full n [] h = absurd (omega arith)
  last_key_of_full n (x ∷ xs) h = last_key-cons x (take n xs)

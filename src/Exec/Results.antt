-- ===== src/Exec/Results.antt =====
-- Pure code that may throw: a Result in sequence, in a condition and in a loop.
use aura_explorer_api.Prelude.{
  ℕ, zero, suc, take, subst, sym, Bool, true, List, [], ◌∷◌, ◌++◌, map, All, ◌≡◌, ◌∙◌, ap, refl,
  inl, inr, Bool-cases, if◌then◌else◌,
}
use aura_explorer_api.Exec.{Result, ok, err, Result-cases}

module _ {ℓ} {A B : Type ℓ} where
  abbrev pub and_then : Result A → (A → Result B) → Result B
  and_then (err e) f = err e
  and_then (ok a) f = f a

  abbrev pub map_ok : (A → B) → Result A → Result B
  map_ok f (err e) = err e
  map_ok f (ok a) = ok (f a)

module _ {A : Type 0} where
  -- A filter whose condition may throw.
  abbrev pub keep_if_ok : (A → Result Bool) → List A → Result (List A)
  keep_if_ok p [] = ok []
  keep_if_ok p (x ∷ xs) =
      and_then (p x) (λ b. map_ok (λ rest. if b then x ∷ rest else rest) (keep_if_ok p xs))

module _ {A B : Type 0} where
  abbrev pub map_each : (A → Result B) → List A → Result (List B)
  map_each f [] = ok []
  map_each f (x ∷ xs) = and_then (f x) (λ y. map_ok (λ ys. y ∷ ys) (map_each f xs))

  -- `for (const x of xs) …`, where each turn pushes what it makes.
  abbrev pub collect : (A → Result (List B)) → List A → Result (List B)
  collect f [] = ok []
  collect f (x ∷ xs) = and_then (f x) (λ ys. map_ok (λ rest. ys ++ rest) (collect f xs))

module _ {A B : Type 0} where
  -- A loop whose turns each push one thing makes the list of them.
  pub collect-singles :
      (f : A → Result (List B)) (g : A → B) (xs : List A)
      → All (λ x. f x ≡ ok (g x ∷ [])) xs
      → collect f xs ≡ ok (map g xs)
  collect-singles f g [] h = refl
  collect-singles f g (x ∷ xs) (h, hs) = rw (h, collect-singles f g xs hs) refl

module _ {A : Type 0} (p : A → Result Bool) where
  -- What such a filter keeps passed the condition, and has what all had.
  pub keep_if_ok-keeps :
      (P : A → Type 0) (xs ys : List A)
      → keep_if_ok p xs ≡ ok ys
      → All P xs
      → All (λ y. P y × (p y ≡ ok true)) ys
  keep_if_ok-keeps P [] ys h all = let same : [] ≡ ys = cc in rw (← same) tt
  keep_if_ok-keeps P (x ∷ xs) ys h (here, all) = elim (Result-cases (p x)) [
    | inr (e, failed) ↦ let h' = rw failed at h in cc
    | inl (b, done) ↦ elim (Result-cases (keep_if_ok p xs)) [
      | inr (e, failed) ↦ let h' = rw (done, failed) at h in cc
      | inl (rest, kept) ↦
          let h' = rw (done, kept) at h in
          let same : (if b then x ∷ rest else rest) ≡ ys = cc in
          let later = keep_if_ok-keeps P xs rest kept all in
          rw (← same) (elim (Bool-cases b) [
            | inl e ↦ rw (e, All) ((here, done ∙ ap ok e), later)
            | inr e ↦ rw e later
          ])
    ]
  ]

  All-unit : (xs : List A) → All (λ _. Unit {0}) xs
  All-unit [] = tt
  All-unit (x ∷ xs) = (tt, All-unit xs)

  pub keep_if_ok-All :
      (xs ys : List A) → keep_if_ok p xs ≡ ok ys → All (λ y. Unit {0} × (p y ≡ ok true)) ys
  keep_if_ok-All xs ys h = keep_if_ok-keeps (λ _. Unit {0}) xs ys h (All-unit xs)

pub map_each-cons :
    {A B : Type 0} (f : A → Result B) (x : A) (xs : List A) (ys : List B)
    → map_each f (x ∷ xs) ≡ ok ys
    → (y : B) × (rest : List B) × (f x ≡ ok y) × (map_each f xs ≡ ok rest) × (ys ≡ y ∷ rest)
map_each-cons f x xs ys h = elim (Result-cases (f x)) [
  | inr (e, failed) ↦ let h' = rw failed at h in cc
  | inl (y, done) ↦ elim (Result-cases (map_each f xs)) [
    | inr (e, failed) ↦ let h' = rw (done, failed) at h in cc
    | inl (rest, all) ↦ let h' = rw (done, all) at h in (y, rest, done, all, cc)
  ]
]

module _ {A B : Type 0} where
  pub and_then-eq-ok :
      (r : Result A) (f : A → Result B) (b : B)
      → and_then r f ≡ ok b
      → (a : A) × (r ≡ ok a) × (f a ≡ ok b)
  and_then-eq-ok (err e) f b h = cc
  and_then-eq-ok (ok a) f b h = (a, refl, h)

  pub map_ok-eq-ok :
      (f : A → B) (r : Result A) (b : B) → map_ok f r ≡ ok b → (a : A) × (r ≡ ok a) × (b ≡ f a)
  map_ok-eq-ok f (err e) b h = cc
  map_ok-eq-ok f (ok a) b h = (a, refl, cc)

module _ {A B : Type 0} (P : B → Type 0) where
  pub All-map : (f : A → B) (xs : List A) → ((x : A) → P (f x)) → All P (map f xs)
  All-map f [] h = tt
  All-map f (x ∷ xs) h = (h x, All-map f xs h)

  pub All-map_each :
      (f : A → Result B) (xs : List A) (ys : List B)
      → ((x : A) (y : B) → f x ≡ ok y → P y)
      → map_each f xs ≡ ok ys
      → All P ys
  All-map_each f [] ys h e = let same : [] ≡ ys = cc in subst (All P) same tt
  All-map_each f (x ∷ xs) ys h e =
      let (y, rest, here, later, whole) = map_each-cons f x xs ys e in
      subst (All P) (sym whole) (h x y here, All-map_each f xs rest h later)

pub All-take : {B : Type 0} (P : B → Type 0) (n : ℕ) (ys : List B) → All P ys → All P (take n ys)
All-take P zero ys h = tt
All-take P (suc n) [] h = tt
All-take P (suc n) (y ∷ ys) (h, hs) = (h, All-take P n ys hs)

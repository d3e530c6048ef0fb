-- ===== src/Notification/Groups/Apart.antt =====
-- The keys of the groups of transfers are distinct.
use aura_explorer_api.Prelude.{
  ◌≡◌, Bool, false, not, string_eq, List, [], ◌∷◌, keep_if, Bool-cases, inl, inr, All,
}
use aura_explorer_api.Notification.Groups.{Key, same_key, distinct}

-- No two keys are the same.
abbrev pub Apart : List Key → Type 0
Apart [] = Unit
Apart (k ∷ ks) = All (λ q. same_key q k ≡ false) ks × Apart ks

keep_if-All : (P : Key → Type 0) (p : Key → Bool) (ks : List Key) → All P ks → All P (keep_if p ks)
keep_if-All P p [] h = tt
keep_if-All P p (k ∷ ks) (h, hs) = elim (Bool-cases (p k)) [
  | inl e ↦ rw (e, All) (h, keep_if-All P p ks hs)
  | inr e ↦ rw (e, All) (keep_if-All P p ks hs)
]

keep_if-Apart : (p : Key → Bool) (ks : List Key) → Apart ks → Apart (keep_if p ks)
keep_if-Apart p [] h = tt
keep_if-Apart p (k ∷ ks) (h, hs) = elim (Bool-cases (p k)) [
  | inl e ↦ rw (e, Apart) (keep_if-All _ p ks h, keep_if-Apart p ks hs)
  | inr e ↦ rw (e, Apart) (keep_if-Apart p ks hs)
]

keep_if-other :
    (k : Key) (ks : List Key)
    → All (λ q. same_key q k ≡ false) (keep_if (λ q. not (same_key q k)) ks)
keep_if-other k [] = tt
keep_if-other k (q ∷ ks) = elim (Bool-cases (same_key q k)) [
  | inl e ↦ rw (e, All) (keep_if-other k ks)
  | inr e ↦ rw (e, All) (e, keep_if-other k ks)
]

pub distinct-Apart : (ks : List Key) → Apart (distinct ks)
unfolding distinct
distinct-Apart [] = tt
distinct-Apart (k ∷ ks) = (keep_if-other k (distinct ks), keep_if-Apart _ _ (distinct-Apart ks))

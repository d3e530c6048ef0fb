-- ===== src/Repository/Members.antt =====
-- The rows of a table after a write.
use mathlib.Core.List.{Memᴰ}
use aura_explorer_api.Prelude.{
  ◌≡◌, ◌⊎◌, inl, inr, refl, ◌∙◌, Bool, true, false, Bool-cases, List, [], ◌∷◌,
}
use aura_explorer_api.Repository.{update_where}

-- A row after a write is one that the write left, or made of one that was there.
pub mem-update_where :
    {Row : Type 0} (w : Row → Bool) (f : Row → Row) (r : Row) (t : List Row)
    → Memᴰ r (update_where w f t)
    → (q : Row) × Memᴰ q t × (((w q ≡ true) × (r ≡ f q)) ⊎ ((w q ≡ false) × (r ≡ q)))
mem-update_where w f r [] m = elim m [ ]
mem-update_where w f r (q ∷ t) (Memᴰ.tail m) =
    let (p, here, made) = mem-update_where w f r t m in (p, Memᴰ.tail here, made)
mem-update_where w f r (q ∷ t) (Memᴰ.head e) = elim (Bool-cases (w q)) [
  | inl on ↦ (q, Memᴰ.head refl, inl (on, e ∙ rw on refl))
  | inr off ↦ (q, Memᴰ.head refl, inr (off, e ∙ rw off refl))
]

-- A row that a write leaves is still there.
pub mem-update_where_off :
    {Row : Type 0} (w : Row → Bool) (f : Row → Row) (r : Row) (t : List Row)
    → Memᴰ r t
    → w r ≡ false
    → Memᴰ r (update_where w f t)
mem-update_where_off w f r [] m off = elim m [ ]
mem-update_where_off w f r (q ∷ t) (Memᴰ.tail m) off =
    Memᴰ.tail (mem-update_where_off w f r t m off)
mem-update_where_off w f r (q ∷ t) (Memᴰ.head e) off =
    let at : w q ≡ false = rw (← e) off in Memᴰ.head (e ∙ rw at refl)

-- ===== src/Notification/Counting.antt =====
-- What `blockLimitNotification` counts: the notifications of each user.
use aura_explorer_api.Prelude.{
  ℕ, ◌+◌, ◌≡◌, true, false, List, [], ◌∷◌, arith, ◌==◌, nat_eq, count_if,
}
use aura_explorer_api.Notification.{Counts, count_one, count_all}

-- All that the entries hold for a user.
abbrev pub counted : ℕ → Counts → ℕ
counted u [] = 0
counted u ((v, n) ∷ t) = elim (u == v) [ true ↦ n | false ↦ 0 ] + counted u t

counted-count_one :
    (u w : ℕ) (t : Counts)
    → counted u (count_one w t) ≡ counted u t + elim (w == u) [ true ↦ 1 | false ↦ 0 ]
unfolding count_one
counted-count_one u w [] = ground arith
counted-count_one u w ((v, n) ∷ t) = ground (arith, counted-count_one u w t)

-- After counting, the entries hold for every user the number of that user's notifications, beside
-- what they held before.
pub counted-count_all :
    (u : ℕ) (t : Counts) (us : List ℕ)
    → counted u (count_all t us) ≡ counted u t + count_if (λ w. w == u) us
unfolding count_all
counted-count_all u t [] = ground arith
counted-count_all u t (w ∷ us) =
    ground (arith, counted-count_all u (count_one w t) us, counted-count_one u w t)

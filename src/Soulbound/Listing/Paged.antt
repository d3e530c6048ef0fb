-- ===== src/Soulbound/Listing/Paged.antt =====
-- The pages of the listing of a contract's tokens, together.
use aura_explorer_api.Prelude.{ℕ, ◌*◌, ◌≤◌, ◌<◌, ◌≡◌, ap, Bool, List, count_if, keep_if}
use aura_explorer_api.Exec.{Result, ok}
use aura_explorer_api.Repository.Builder.{Listing}
use aura_explorer_api.Repository.Builder.Pages.{page_by_page, page_by_page_all}
use aura_explorer_api.Soulbound.{SoulboundToken, Vault, SoulboundServices}
use aura_explorer_api.Soulbound.Listing.{
  ListingServices, SortedBy, TokenParas, is_listed_token, get_tokens,
}

module _ (lists : ListingServices) (env : SoulboundServices) where
  -- Who asks for the tokens of a contract page by page, with a limit that is not 0, until as many are
  -- asked for as the first answer counts, gets every token that the keyword and the status select,
  -- as often as the table has it, and no other.
  pub get_tokens_all :
      (p : SoulboundToken → Bool) (req : TokenParas) (limit rounds : ℕ) (s s' : Vault)
      (l : Listing SoulboundToken)
      → 0 < limit
      → get_tokens lists env req limit 0 s ≡ (ok l, s')
      → l.count ≤ rounds * limit
      → (ts : List SoulboundToken) × (page_by_page
            (λ o. (get_tokens lists env req limit o s).0)
            limit
            rounds
            0
          ≡ ok ts)
        × (count_if p ts ≡ count_if p (keep_if (is_listed_token lists req) s.tokens))
  unfolding get_tokens
  get_tokens_all p req limit rounds s s' l some_limit first enough =
      page_by_page_all lists.builder env.tokens SortedBy.created (is_listed_token lists req) limit
        s.tokens some_limit p rounds l
        (ap (λ (o : Result (Listing SoulboundToken) × Vault). o.0) first) enough

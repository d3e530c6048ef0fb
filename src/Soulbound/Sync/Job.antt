-- ===== src/Soulbound/Sync/Job.antt =====
-- `handleJobSyncCw4973Status` of src/components/queues/cw4973/cw4973.processor.ts: the sync point of
-- the soulbound tokens.
use aura_explorer_api.Prelude.{ℕ, true, Option, none, some, List, [], ◌∷◌, refl}
use aura_explorer_api.Exec.{Result, Exec, pure, gets, lift, ◌>>=◌, ◌>>◌}
use aura_explorer_api.Repository.{Keyed, Repository}
use aura_explorer_api.Soulbound.{Vault, SoulboundServices}
use aura_explorer_api.Soulbound.Sync.{Activity, sync_all}

-- A row of the sync points that has the type CW4973_BLOCK_HEIGHT.
pub record HeightPoint : Type 0 where
  pub id : ℕ
  pub point : ℕ

abbrev pub height_keyed : Keyed HeightPoint
height_keyed = record {
  id = λ p. p.id;
  with_id = λ n p. record p { id = n };
  id-with_id = λ n p. refl;
}

pub record SyncDesk : Type 0 where
  pub vault : Vault
  pub points : List HeightPoint

-- `fetch` gives the activities above a height in ascending order.
pub record SyncServices : Type 0 where
  pub soulbound : SoulboundServices
  pub points : Repository height_keyed
  pub fetch : ℕ → Result (List Activity)

module _ {A : Type 0} where
  abbrev on_vault : Exec Vault A → Exec SyncDesk A
  on_vault f s = ((f s.vault).0, record s { vault = (f s.vault).1 })

  abbrev on_points : (List HeightPoint → Result A × List HeightPoint) → Exec SyncDesk A
  on_points f s = ((f s.points).0, record s { points = (f s.points).1 })

-- The height of the last activity, after one with the given height.
unfoldable pub last_height : ℕ → List Activity → ℕ
last_height h [] = h
last_height h (a ∷ rest) = last_height a.height rest

module _ (env : SyncServices) where
  abbrev sync_from : HeightPoint → List Activity → Exec SyncDesk (Unit {0})
  sync_from p [] = pure tt
  sync_from p (a ∷ rest) = do
    on_vault (sync_all env.soulbound (a ∷ rest))
    on_points (env.points.save (record p { point = last_height a.height rest }))
    pure tt

  abbrev sync_point : Option HeightPoint → Exec SyncDesk (Unit {0})
  sync_point none = do on_points (env.points.insert (record { id = 0; point = 0 })); pure tt
  sync_point (some p) = lift (env.fetch p.point) >>= sync_from p

  unfoldable pub handle_job_sync_cw4973_status : Exec SyncDesk (Unit {0})
  handle_job_sync_cw4973_status =
      gets (λ s. env.points.find_one (λ _. true) s.points) >>= sync_point

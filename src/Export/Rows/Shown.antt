-- ===== src/Export/Rows/Shown.antt =====
-- The rows of the exports have the members that the columns of their files show.
use aura_explorer_api.Prelude.{
  String, ◌≡◌, refl, sym, subst, Bool, true, false, ◌==◌, ◌&&◌, string_eq, Option, none, some, List,
  [], ◌∷◌, any,
}
use aura_explorer_api.Exec.{ok}
use aura_explorer_api.Exec.Results.{map_ok, and_then-eq-ok, map_ok-eq-ok}
use aura_explorer_api.Entities.{Explorer}
use aura_explorer_api.Export.Query.{Method}
use aura_explorer_api.Export.Convert.{Event, AccountRow, get_function_name_by_method_id}
use aura_explorer_api.Export.Rows.{
  Row, Cell, Column, Tags, evm_executed_header, coin_transfer_header, token_transfer_header,
  nft_transfer_header, coin_row, token_row, nft_row, evm_row, erc20_row, evm_cells, erc20_cells,
  prefix_8, outer_value, with_contract, with_evm,
}
use aura_explorer_api.Export.{EvmTx, EvmRef, Cw20Ref, Erc20Activity, ExportServices}

-- Every column shows a member of the row.
abbrev pub shows : List Column → Row → Bool
shows [] row = true
shows (c ∷ rest) row = any (λ (cell : String × Cell). cell.0 == c.member) row && shows rest row

module _ (env : ExportServices) (tags : Tags) where
  pub coin_row-shows :
      (b : Bool) (address : String) (tx : AccountRow) (e : Event)
      → shows (coin_transfer_header b) (coin_row env tags address tx e) ≡ true
  coin_row-shows true address tx e = refl
  coin_row-shows false address tx e = refl

  pub token_row-shows :
      (b : Bool) (address : String) (tx : AccountRow) (e : Event)
      → shows (token_transfer_header b) (token_row env tags address tx e) ≡ true
  token_row-shows true address tx e = refl
  token_row-shows false address tx e = refl

  pub nft_row-shows :
      (b : Bool) (address : String) (tx : AccountRow) (e : Event)
      → shows (nft_transfer_header b) (nft_row env tags address tx e) ≡ true
  nft_row-shows true address tx e = refl
  nft_row-shows false address tx e = refl

  evm_cells-shows :
      (b : Bool) (explorer : Explorer) (symbol : Option String) (tx : EvmTx) (method : String)
      (value : Option String)
      → shows (evm_executed_header b) (evm_cells env explorer tags symbol tx method value) ≡ true
  evm_cells-shows true explorer symbol tx method value = refl
  evm_cells-shows false explorer symbol tx method value = refl

  pub evm_row-shows :
      (b : Bool) (explorer : Explorer) (methods : List Method) (symbol : Option String) (tx : EvmTx)
      (row : Row)
      → evm_row env explorer tags methods symbol tx ≡ ok row
      → shows (evm_executed_header b) row ≡ true
  unfolding evm_row
  evm_row-shows b explorer methods symbol tx row done =
      let (method, _, rest) =
        and_then-eq-ok (get_function_name_by_method_id (prefix_8 tx.input) methods)
          (λ method.
            map_ok (λ value. evm_cells env explorer tags symbol tx method value)
              (outer_value env tx.transaction))
          row done in
      let (value, _, made) =
        map_ok-eq-ok (λ value. evm_cells env explorer tags symbol tx method value)
          (outer_value env tx.transaction) row rest in
      subst (λ r. shows (evm_executed_header b) r ≡ true) (sym made)
        (evm_cells-shows b explorer symbol tx method value)

  erc20_cells-shows :
      (b : Bool) (address : Option String) (tx : Erc20Activity) (evm : EvmRef) (c : Cw20Ref)
      (method : String)
      → shows (token_transfer_header b) (erc20_cells env address tags tx evm c method) ≡ true
  erc20_cells-shows true address tx evm c method = refl
  erc20_cells-shows false address tx evm c method = refl

  with_contract-shows :
      (b : Bool) (address : Option String) (tx : Erc20Activity) (evm : EvmRef) (method : String)
      (contract : Option Cw20Ref) (row : Row)
      → with_contract env address tags tx evm method contract ≡ ok row
      → shows (token_transfer_header b) row ≡ true
  with_contract-shows b address tx evm method none row done = cc
  with_contract-shows b address tx evm method (some c) row done =
      let made : erc20_cells env address tags tx evm c method ≡ row = cc in
      subst (λ r. shows (token_transfer_header b) r ≡ true) made
        (erc20_cells-shows b address tx evm c method)

  with_evm-shows :
      (b : Bool) (address : Option String) (methods : List Method) (tx : Erc20Activity)
      (evm : Option EvmRef) (row : Row)
      → with_evm env address tags methods tx evm ≡ ok row
      → shows (token_transfer_header b) row ≡ true
  with_evm-shows b address methods tx none row done = cc
  with_evm-shows b address methods tx (some evm) row done =
      let (method, _, rest) =
        and_then-eq-ok (get_function_name_by_method_id (prefix_8 evm.input) methods)
          (λ method. with_contract env address tags tx evm method tx.erc20_contract) row done in
      with_contract-shows b address tx evm method tx.erc20_contract row rest

  pub erc20_row-shows :
      (b : Bool) (address : Option String) (methods : List Method) (tx : Erc20Activity) (row : Row)
      → erc20_row env address tags methods tx ≡ ok row
      → shows (token_transfer_header b) row ≡ true
  unfolding erc20_row
  erc20_row-shows b address methods tx row done =
      with_evm-shows b address methods tx tx.evm_transaction row done

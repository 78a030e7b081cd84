-- ===== src/AssetRouter/Instruction.antt =====
-- The instructions of the asset router, programs/asset_router/src/lib.rs, with their arguments and the
-- accounts that the caller chooses.
use sol_svm_contracts.Base.{ℕ, List, Option}
use sol_svm_contracts.AssetRouter.State.{Config, TokenConfig, TokenRouteType, Route, AccountRole}
use sol_svm_contracts.AssetRouter.Minting.{MintAccounts}
use sol_svm_contracts.AssetRouter.Sending.{SendAccounts}
use sol_svm_contracts.AssetRouter.Receiving.{Receive}
use sol_svm_contracts.AssetRouter.WithFee.{InstructionSysvar, FeeAccounts}

pub data Instruction : Type 0 where
  initialize : (upgrade_authority : Option ℕ) (config : Config) → Instruction
  mint_from_payload :
      (mint_payload : List ℕ) (mint_payload_hash : ℕ) (accounts : MintAccounts) → Instruction
  mint_with_fee :
      (sysvar : InstructionSysvar) (session_payload : Option (List ℕ)) (mint_payload_hash : ℕ)
      (fee_payload fee_signature : List ℕ) (accounts : FeeAccounts)
      → Instruction
  deposit :
      (accounts : SendAccounts) (to_lchain_id to_token_address recipient amount : ℕ) → Instruction
  redeem :
      (accounts : SendAccounts)
      (treasury_token_account to_lchain_id to_token_address recipient amount : ℕ)
      → Instruction
  redeem_for_btc :
      (accounts : SendAccounts) (treasury_token_account : ℕ) (script_pubkey : List ℕ) (amount : ℕ)
      → Instruction
  gmp_receive : (payload_hash : ℕ) (accounts : Receive) → Instruction
  accept_ownership : Instruction
  transfer_ownership : (new_admin : ℕ) → Instruction
  set_bascule : (bascule : Option ℕ) → Instruction
  set_bascule_gmp : (bascule_gmp : Option ℕ) → Instruction
  set_mint_fee : (mint mint_fee : ℕ) → Instruction
  set_treasury : (treasury : ℕ) → Instruction
  change_mint_auth : (mint current_auth token_program new_auth : ℕ) → Instruction
  pause unpause : Instruction
  set_token_config : (mint_address : ℕ) (token_config : TokenConfig) → Instruction
  set_token_route : (route : Route) (token_route_type : TokenRouteType) → Instruction
  unset_token_route : (route : Route) → Instruction
  change_native_mint : (native_mint : ℕ) → Instruction
  grant_account_role : (account : ℕ) (account_role : AccountRole) → Instruction
  revoke_account_roles : (account : ℕ) → Instruction

-- ===== src/AssetRouter/WithFee/Witnesses.antt =====
-- A mint with a fee that the recipient has signed for.
use sol_svm_contracts.Base.{ℕ, ◌≡◌, refl, List, [], ◌∷◌, ◌++◌, none, some, ok, err, replicate}
use sol_svm_contracts.Base.Bytes.{
  to_be, u64_word, from_be, from_be_from, read_exact, read_array, read_u64,
}
use sol_svm_contracts.Mailbox.Program.Delivery.{notary_of}
use sol_svm_contracts.Bascule.Program.{to_deposit_id, hash_data, validate_withdrawal}
use sol_svm_contracts.AssetRouter.State.{claimer, put, World, invalid_message}
use sol_svm_contracts.AssetRouter.Standins.{runtime}
use sol_svm_contracts.AssetRouter.Payloads.{from_session_payload, validate_fee}
use sol_svm_contracts.AssetRouter.Minting.{call_bascule, check_bascule, execute_mint}
use sol_svm_contracts.AssetRouter.Minting.Witnesses.{
  finalized, payload, hash, config, before, after, accounts,
}
use sol_svm_contracts.AssetRouter.WithFee.{
  from_bytes, InstructionSysvar, same_bytes, FeeAccounts, verify_data, verify_ed25519_instruction,
  fee_checks, mint_with_fee,
}
use sol_svm_contracts.AssetRouter.WithFee.Approvals.{IsSplit, mint_with_fee-IsSplit}

-- A fee of 3, up to second 60.
abbrev fee_payload : List ℕ
fee_payload =
    to_be 4 0x04acbbb2
    ++ (to_be 16 9 ++ (to_be 16 6 ++ (3 ∷ replicate 7 0 ++ (60 ∷ replicate 7 0))))

abbrev fee_signature : List ℕ
fee_signature = replicate 64 8

abbrev offsets : List ℕ
offsets = 16 ∷ 0 ∷ 255 ∷ 255 ∷ 80 ∷ 0 ∷ 255 ∷ 255 ∷ 112 ∷ 0 ∷ 52 ∷ 0 ∷ 255 ∷ 255 ∷ []

abbrev sysvar : InstructionSysvar
sysvar = record {
  current_index = 1;
  instructions =
      record {
        program_id = 90;
        instruction_data = 1 ∷ 0 ∷ (offsets ++ (fee_signature ++ (to_be 32 65 ++ fee_payload)));
      }
      ∷ [];
}

abbrev fee_accounts : FeeAccounts
fee_accounts = record { payer = 5; treasury_token_account = 71; minting = accounts }

abbrev with_claimer : World ℕ
with_claimer = record before {
  router = record before.router {
    config = some (record config { treasury = 65 });
    account_roles = put 5 (some (claimer ∷ [])) (λ _. none);
    token_configs =
        put 2
          (some (record {
            redeem_fee = 2;
            redeem_for_btc_min_amount = 10;
            max_mint_commission = 4;
            to_native_commission = 3;
            ledger_redeem_handler = 44;
          }))
          (λ _. none);
  };
}

abbrev with_minted : World ℕ
with_minted = record after {
  router = record with_claimer.router { deposit_payloads_spent = put hash (some tt) (λ _. none) };
}

mint_with_fee-runs :
    mint_with_fee runtime
      (notary_of 900 finalized)
      sysvar
      (some payload)
      hash
      fee_payload
      fee_signature
      fee_accounts
      with_claimer
    ≡ ok with_minted
unfolding mint_with_fee fee_checks verify_ed25519_instruction verify_data same_bytes from_bytes
    validate_fee from_session_payload check_bascule call_bascule execute_mint to_be u64_word
    validate_withdrawal to_deposit_id hash_data read_array read_exact from_be from_be_from read_u64
mint_with_fee-runs = refl

-- The recipient has not signed another payload.
another_fee :
    mint_with_fee runtime
      (notary_of 900 finalized)
      sysvar
      (some payload)
      hash
      (4 ∷ fee_payload)
      fee_signature
      fee_accounts
      with_claimer
    ≡ err invalid_message
unfolding mint_with_fee fee_checks verify_ed25519_instruction verify_data same_bytes from_bytes
    validate_fee from_session_payload check_bascule call_bascule execute_mint to_be u64_word
    validate_withdrawal to_deposit_id hash_data read_array read_exact from_be from_be_from read_u64
another_fee = refl

mint_with_fee-IsSplit_example :
    IsSplit runtime sysvar hash fee_payload fee_signature fee_accounts with_claimer with_minted
mint_with_fee-IsSplit_example =
    mint_with_fee-IsSplit runtime (notary_of 900 finalized) sysvar (some payload) hash fee_payload
      fee_signature fee_accounts with_claimer with_minted mint_with_fee-runs

-- ===== src/BasculeGmp/Program/Witnesses.antt =====
-- The bascule for mints at concrete inputs: a mint is reported and validated.
use sol_svm_contracts.Base.{
  ℕ, ◌+◌, ◌≤◌, ◌≡◌, refl, false, List, [], ◌∷◌, Option, none, some, ok, err,
}
use sol_svm_contracts.Base.Bytes.{to_be, u64_word}
use sol_svm_contracts.BasculeGmp.State.{
  already_minted, must_be_reported_when_above_threshold, invalid_proof, MintMessage, MintProof,
  reported, minted, MintPayload, AccountRole, mint_reporter, mint_validator, State, no_accounts,
  put, Runtime, mint_id, mint_id_data, Instruction,
}
use sol_svm_contracts.BasculeGmp.Program.{
  initialize, grant_account_role, recover, report_mint, validate_mint, exec,
}
use sol_svm_contracts.BasculeGmp.Program.Inversion.{state_of}
use sol_svm_contracts.BasculeGmp.Program.Mints.{
  Leads, start, step, is_minted, times_minted, times_minted_lem,
}
use sol_svm_contracts.BasculeGmp.Program.Reports.{Justified, mint_payloads-Justified}

abbrev sum : List ℕ → ℕ
sum [] = 0
sum (b ∷ bs) = b + sum bs

-- Stand-ins for the hash and the recovery.
abbrev runtime : Runtime
runtime = record {
  keccak256 = sum;
  secp256k1_recover = λ hash recovery_id signature. some (hash + signature);
  expected_chain_id = 7;
}

abbrev message : MintMessage
message = record { nonce = 1; chain_id = 7; token_address = 2; recipient = 3; amount = 50 }

abbrev mint : ℕ
mint = 63

abbrev proof : MintProof
proof = record { signature = 36; recovery_id = 0 }

abbrev forged_proof : MintProof
forged_proof = record { signature = 37; recovery_id = 0 }

abbrev roles : ℕ → Option (List AccountRole)
roles =
    put 9 (some (mint_validator ∷ [])) (put 8 (some (mint_reporter ∷ [])) no_accounts.account_roles)

abbrev ready : State
ready = record {
  config = some (record {
    admin = 6;
    pending_admin = 0;
    paused = false;
    validate_threshold = 10;
    trusted_signer = 99;
  });
  account_roles = roles;
  mint_payloads = λ _. none;
}

abbrev reported_payload : MintPayload
reported_payload = record { state = reported; amount = 50 }

abbrev minted_payload : MintPayload
minted_payload = record { state = minted; amount = 50 }

abbrev with_reported : State
with_reported = record ready {
  mint_payloads = put mint (some reported_payload) ready.mint_payloads;
}

abbrev with_minted : State
with_minted = record with_reported {
  mint_payloads = put mint (some minted_payload) with_reported.mint_payloads;
}

ready-trace : Leads runtime no_accounts ready
unfolding exec initialize grant_account_role
ready-trace =
    step {st' = ready} 6 (Instruction.grant_account_role 9 mint_validator)
      (step
        {st' = record ready {
          account_roles = put 8 (some (mint_reporter ∷ [])) no_accounts.account_roles;
        }}
        6 (Instruction.grant_account_role 8 mint_reporter)
        (step {st' = record ready { account_roles = no_accounts.account_roles }} 5
          (Instruction.initialize (some 5) 6 10 99) start refl)
        refl)
      refl

report-runs : report_mint runtime 8 message proof ready ≡ ok with_reported
unfolding report_mint recover mint_id mint_id_data u64_word to_be
report-runs = refl

validate-runs : validate_mint runtime 9 message with_reported ≡ ok with_minted
unfolding validate_mint mint_id mint_id_data u64_word to_be
validate-runs = refl

forged : report_mint runtime 8 message forged_proof ready ≡ err invalid_proof
unfolding report_mint recover mint_id mint_id_data u64_word to_be
forged = refl

unreported_above : validate_mint runtime 9 message ready ≡ err must_be_reported_when_above_threshold
unfolding validate_mint mint_id mint_id_data u64_word to_be
unreported_above = refl

validated_once : validate_mint runtime 9 message with_minted ≡ err already_minted
unfolding validate_mint mint_id mint_id_data u64_word to_be
validated_once = refl

trace : Leads runtime no_accounts with_minted
unfolding exec
trace =
    step 9 (Instruction.validate_mint message)
      (step 8 (Instruction.report_mint message proof) ready-trace report-runs) validate-runs

times_minted_lem_example :
    (times_minted runtime mint trace ≡ is_minted (state_of (with_minted.mint_payloads mint)))
    × (times_minted runtime mint trace ≤ 1)
times_minted_lem_example = times_minted_lem runtime mint trace

mint_payloads-Justified_example : Justified runtime mint trace minted_payload
mint_payloads-Justified_example = mint_payloads-Justified runtime mint trace minted_payload refl

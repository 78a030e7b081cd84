-- ===== src/AssetRouter/Minting/Witnesses.antt =====
-- A mint from a deposit payload that two validators of the consortium have signed.
use sol_svm_contracts.Base.{
  ℕ, ◌≡◌, refl, List, [], ◌∷◌, ◌++◌, true, false, none, some, ok, err, replicate,
}
use sol_svm_contracts.Base.Bytes.{to_be, u64_word, from_be, read_exact, read_array, read_u64}
use sol_svm_contracts.Consortium.State.{
  State as ConsortiumState, put_session, put_validated_payload,
}
use sol_svm_contracts.Consortium.Instruction.{Instruction as Request}
use sol_svm_contracts.Consortium.Signatures.{
  recovers, check_signature, add_signature, post_signature, post_signatures,
}
use sol_svm_contracts.Consortium.Payload.RoundTrip.{encode}
use sol_svm_contracts.Consortium.Program.{
  exec as exec_consortium, create_session, post_session_signatures, finalize_session,
}
use sol_svm_contracts.Consortium.Program.Reach.{start, step, Reach}
use sol_svm_contracts.Consortium.Program.Runs.{
  crypto, skipped, two_validators, with_set, initialize-runs, set_initial_valset-runs,
}
use sol_svm_contracts.Mailbox.Program.Delivery.{notary_of}
use sol_svm_contracts.Bascule.State.{reported, withdrawn, State as BasculeState}
use sol_svm_contracts.Bascule.Program.{to_deposit_id, hash_data, validate_withdrawal}
use sol_svm_contracts.AssetRouter.State.{Config, put, no_accounts, World, recipient_mismatch}
use sol_svm_contracts.AssetRouter.Standins.{runtime}
use sol_svm_contracts.BasculeGmp.State.{no_accounts as no_gmp}
use sol_svm_contracts.AssetRouter.Payloads.{from_session_payload}
use sol_svm_contracts.AssetRouter.Minting.{
  MintAccounts, call_bascule, check_bascule, execute_mint, mint_checks, mint_from_payload,
}
use sol_svm_contracts.AssetRouter.Minting.Spending.{IsBacked, mint_from_payload-IsBacked}

-- The deposit of 5 for token account 70, in output 3 of transaction 2, of token 2 on chain 900.
abbrev pub payload : List ℕ
payload =
    to_be 4 0xce25e7c2
    ++ (to_be 32 900
        ++ (to_be 32 70 ++ (u64_word 5 ++ (2 ∷ replicate 31 0 ++ (to_be 32 3 ++ to_be 32 2)))))

abbrev pub hash : ℕ
hash = 196

abbrev opened : ConsortiumState
opened = record with_set {
  sessions =
      put_session 1 5 hash (some (record { signed = false ∷ false ∷ []; weight = 0 }))
        with_set.sessions;
}

abbrev signed : ConsortiumState
signed = record opened {
  sessions =
      put_session 1 5 hash (some (record { signed = true ∷ true ∷ []; weight = 2 }))
        opened.sessions;
}

abbrev pub finalized : ConsortiumState
finalized = record signed {
  sessions = put_session 1 5 hash none signed.sessions;
  validated_payloads =
      put_validated_payload hash (record { latest_epoch = 1 }) signed.validated_payloads;
}

create_session-runs : exec_consortium crypto 5 (Request.create_session hash) with_set ≡ ok opened
unfolding exec_consortium create_session
create_session-runs = refl

post_session_signatures-runs :
    exec_consortium crypto 5
      (Request.post_session_signatures hash (216 ∷ 206 ∷ []) (1 ∷ 0 ∷ []))
      opened
    ≡ ok signed
unfolding exec_consortium post_session_signatures post_signatures post_signature add_signature
    check_signature recovers
post_session_signatures-runs = refl

finalize_session-runs :
    exec_consortium crypto 5 (Request.finalize_session hash) signed ≡ ok finalized
unfolding exec_consortium finalize_session
finalize_session-runs = refl

Reach-finalized : Reach crypto finalized
Reach-finalized =
    step 5 (Request.finalize_session hash)
      (step 5 (Request.post_session_signatures hash (216 ∷ 206 ∷ []) (1 ∷ 0 ∷ []))
        (step 5 (Request.create_session hash)
          (step 7 (Request.set_initial_valset (encode skipped two_validators))
            (step 9 (Request.initialize (some 9) 7) start initialize-runs) set_initial_valset-runs)
          create_session-runs)
        post_session_signatures-runs)
      finalize_session-runs

abbrev pub config : Config
config = record {
  admin = 7;
  pending_admin = 0;
  treasury = 71;
  paused = false;
  native_mint = 2;
  consortium = 900;
  mailbox = 11;
  bascule = some 80;
  bascule_gmp = none;
  ledger_lchain_id = 1;
  bitcoin_lchain_id = 3;
}

abbrev bascule : BasculeState
bascule = record {
  bascule_data = some (record {
    admin = 7;
    pending_admin = 0;
    pauser = 0;
    deposit_reporter = 8;
    withdrawal_validators = 30 ∷ [];
    is_paused = false;
    validate_threshold = 0;
  });
  deposits = λ id. some reported;
}

abbrev pub before : World ℕ
before = record {
  router = record no_accounts { config = some config; messaging_authority = some tt };
  bascule = bascule;
  bascule_gmp = no_gmp;
  tokens = 100;
}

abbrev pub after : World ℕ
after = record {
  router = record before.router { deposit_payloads_spent = put hash (some tt) (λ _. none) };
  bascule = record bascule { deposits = λ id. put 112 (some withdrawn) bascule.deposits id };
  bascule_gmp = no_gmp;
  tokens = 105;
}

abbrev pub accounts : MintAccounts
accounts = record {
  token_program = 1;
  recipient = 70;
  mint = 2;
  mint_authority = 63;
  bascule_program = some 80;
  with_bascule_data = true;
  with_bascule_deposit = true;
  with_bascule_validator = true;
}

pub mint_from_payload-runs :
    mint_from_payload runtime (notary_of 900 finalized) payload hash accounts before ≡ ok after
unfolding mint_from_payload mint_checks from_session_payload check_bascule call_bascule execute_mint
    to_be u64_word validate_withdrawal to_deposit_id hash_data read_array read_exact from_be
    read_u64
mint_from_payload-runs = refl

mint_from_payload-IsBacked_example :
    IsBacked runtime crypto finalized accounts payload hash config before after
mint_from_payload-IsBacked_example =
    mint_from_payload-IsBacked runtime crypto 900 finalized payload hash accounts config before
      after Reach-finalized refl refl mint_from_payload-runs

-- Not to another token account.
redirected :
    mint_from_payload runtime
      (notary_of 900 finalized)
      payload
      hash
      (record accounts { recipient = 72 })
      before
    ≡ err recipient_mismatch
unfolding mint_from_payload mint_checks from_session_payload to_be u64_word read_array read_exact
    from_be read_u64
redirected = refl

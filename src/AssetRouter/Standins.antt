-- ===== src/AssetRouter/Standins.antt =====
-- Stand-ins for what the asset router calls, for the runs: the accounts of the token programs are the
-- supply.
use sol_svm_contracts.Base.{ℕ, ◌+◌, ◌-◌, true, some, none, leb, if◌then◌else◌, length}
use sol_svm_contracts.AssetRouter.State.{Runtime}

abbrev pub runtime : Runtime ℕ
runtime = record {
  chain_id = 900;
  chain_prefix = 9;
  router_id = 60;
  program_prefix = 6;
  mailbox_id = 11;
  bascule_id = 80;
  bascule_gmp_id = 81;
  bascule_validator = 30;
  token_authority = 62;
  messaging_authority = 64;
  sha256 = λ bytes. length bytes;
  keccak256 = λ bytes. length bytes;
  bascule_gmp = record {
    keccak256 = λ bytes. length bytes;
    secp256k1_recover = λ hash id signature. none;
    expected_chain_id = 900;
  };
  ed25519_program = 90;
  now = λ supply. 50;
  associated_token_address = λ owner mint token_program. 0;
  token_account = λ key supply. some (record { token_program = 1; mint = 2; owner = 65 });
  is_mint = λ key supply. true;
  burn = λ token_program from mint authority amount supply.
      if leb amount supply then some (supply - amount) else none;
  transfer_checked = λ token_program from to authority mint amount decimals supply. some supply;
  mint_to =
      λ token_program mint to mint_authority token_authority amount supply. some (supply + amount);
  set_mint_authority =
      λ token_program mint current_authority token_authority new_authority supply. some supply;
  call_other = λ program validator deposit_id recipient amount tx_id tx_vout supply. none;
  call_other_gmp = λ program validator message supply. none;
}

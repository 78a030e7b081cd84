-- ===== src/AssetRouter/WithFee/Approvals.antt =====
-- How a mint with a fee splits the amount, and what the recipient has approved.
use sol_svm_contracts.Base.{
  ℕ, ◌+◌, ◌-◌, ◌≤◌, ◌<◌, ◌≡◌, true, List, Option, some, inl, inr, ok, arith, Option-cases,
}
use Prim.Native.Nat.{min}
use sol_svm_contracts.Base.Bytes.{to_be}
use sol_svm_contracts.Mailbox.State.{Notary}
use sol_svm_contracts.AssetRouter.State.{
  AccountRole, claimer, has_role, TokenAccount, World, Runtime,
}
use sol_svm_contracts.AssetRouter.Payloads.{
  DepositV1, from_session_payload, FeeAction, validate_fee,
}
use sol_svm_contracts.AssetRouter.Minting.{MintAccounts, execute_mint}
use sol_svm_contracts.AssetRouter.WithFee.{
  from_bytes, InstructionSysvar, verify_ed25519_instruction, FeeAccounts, FeeChecked, mint_with_fee,
}
use sol_svm_contracts.AssetRouter.WithFee.Splitting.{mint_with_fee_inv}

-- An approval that is taken is for this chain and program and has not expired.
validate_fee_inv :
    (chain_prefix program_prefix now : ℕ) (f : FeeAction) (max_fee fee : ℕ)
    → validate_fee chain_prefix program_prefix now f max_fee ≡ ok fee
    → (f.chain_id ≡ chain_prefix)
      × (f.verifying_contract ≡ program_prefix)
      × (now ≤ f.expiry)
      × (fee ≡ min f.fee max_fee)
unfolding validate_fee
validate_fee_inv chain_prefix program_prefix now f max_fee fee h =
    (ground arith, ground arith, ground arith, ground arith)

module _ {Tokens : Type 0} (runtime : Runtime Tokens) where
  execute_mint_inv :
      (a : MintAccounts) (amount : ℕ) (tokens tokens' : Tokens)
      → execute_mint runtime a amount tokens ≡ ok tokens'
      → runtime.mint_to a.token_program a.mint a.recipient a.mint_authority runtime.token_authority
          amount tokens
        ≡ some tokens'
  unfolding execute_mint
  execute_mint_inv a amount tokens tokens' h =
      elim (Option-cases (
        runtime.mint_to a.token_program a.mint a.recipient a.mint_authority runtime.token_authority
          amount tokens)) [ inl e ↦ absurd (ground arith) | inr (t, e) ↦ ground arith ]

  -- The split of the amount of a deposit payload.
  pub record IsSplit (sysvar : InstructionSysvar) (hash : ℕ) (fee_payload fee_signature : List ℕ)
      (a : FeeAccounts) (w w' : World Tokens) : Type 0 where
    pub found : FeeChecked
    pub payload : List ℕ
    pub p : DepositV1
    pub action : FeeAction
    pub roles : List AccountRole
    pub treasury : TokenAccount
    pub fee : ℕ
    pub rest : ℕ
    pub before : Tokens
    pub taken : Tokens
    pub is_hashed : runtime.sha256 payload ≡ hash
    pub is_decoded : from_session_payload payload ≡ ok p
    pub is_split : fee + rest ≡ p.amount
    pub is_positive : 0 < rest
    pub is_bounded : (fee ≤ found.token_config.max_mint_commission) × (fee ≤ action.fee)
    pub is_action : from_bytes fee_payload ≡ ok action
    pub is_here :
        (action.chain_id ≡ runtime.chain_prefix)
        × (action.verifying_contract ≡ runtime.program_prefix)
    pub is_in_time : runtime.now w.tokens ≤ action.expiry
    pub is_signed :
        verify_ed25519_instruction runtime sysvar
          (to_be 32 found.recipient.owner)
          fee_payload
          fee_signature
        ≡ ok tt
    pub is_recipient : runtime.token_account a.minting.recipient w.tokens ≡ some found.recipient
    pub is_treasury : runtime.token_account a.treasury_token_account w.tokens ≡ some treasury
    pub is_of_treasury : treasury.owner ≡ found.config.treasury
    pub is_config :
        (w.router.config ≡ some found.config)
        × (w.router.token_configs a.minting.mint ≡ some found.token_config)
    pub is_claimed : (w.router.account_roles a.payer ≡ some roles) × (has_role claimer roles ≡ true)
    pub fee_minted :
        runtime.mint_to a.minting.token_program a.minting.mint a.treasury_token_account
          a.minting.mint_authority runtime.token_authority fee before
        ≡ some taken
    pub rest_minted :
        runtime.mint_to a.minting.token_program a.minting.mint a.minting.recipient
          a.minting.mint_authority runtime.token_authority rest taken
        ≡ some w'.tokens

  -- A mint with a fee that goes through is asked for by a claimer, and splits the amount of the
  -- deposit payload with the hash in a fee, which is minted to a token account of the treasury, and a
  -- positive rest, which is minted to the recipient's token account. The fee is at most what the
  -- token's config allows, and at most what a fee payload says that is for this chain and program, has
  -- not expired, and passes the check for a signature by the owner of the recipient's token account.
  pub mint_with_fee-IsSplit :
      (notary : Notary) (sysvar : InstructionSysvar) (posted : Option (List ℕ)) (hash : ℕ)
      (fee_payload fee_signature : List ℕ) (a : FeeAccounts) (w w' : World Tokens)
      → mint_with_fee runtime notary sysvar posted hash fee_payload fee_signature a w ≡ ok w'
      → IsSplit sysvar hash fee_payload fee_signature a w w'
  mint_with_fee-IsSplit notary sysvar posted hash fee_payload fee_signature a w w' h =
      let m =
        mint_with_fee_inv runtime notary sysvar posted hash fee_payload fee_signature a w w' h in
      let (here, ours, timely, least) =
        validate_fee_inv runtime.chain_prefix runtime.program_prefix (runtime.now w.tokens) m.action
          m.found.token_config.max_mint_commission m.fee m.is_fee in
      record {
        found = m.found;
        payload = m.payload;
        p = m.p;
        action = m.action;
        roles = m.are_checked.roles;
        treasury = m.are_checked.treasury;
        fee = m.fee;
        rest = m.p.amount - m.fee;
        before = m.checked.tokens;
        taken = m.taken;
        is_hashed = m.is_hashed;
        is_decoded = m.is_decoded;
        is_split = omega (arith, m.is_less);
        is_positive = omega (arith, m.is_less);
        is_bounded = (omega (arith, least), omega (arith, least));
        is_action = m.is_action;
        is_here = (here, ours);
        is_in_time = timely;
        is_signed = m.is_signed;
        is_recipient = m.are_checked.is_recipient;
        is_treasury = m.are_checked.is_treasury;
        is_of_treasury = m.are_checked.is_of_treasury;
        is_config = (m.are_checked.is_config, m.are_checked.is_token_config);
        is_claimed = (m.are_checked.are_roles, m.are_checked.is_claimer);
        fee_minted =
            execute_mint_inv (record a.minting { recipient = a.treasury_token_account }) m.fee
              m.checked.tokens m.taken m.is_taken;
        rest_minted = execute_mint_inv a.minting (m.p.amount - m.fee) m.taken w'.tokens m.is_minted;
      }

-- ===== src/Bridge/Program/Acceptance.antt =====
-- The accounts that a receipt needs, and that it then goes through.
use sol_svm_contracts.Base.{
  ℕ, Bool-cases, ◌/◌, ◌%◌, ◌<◌, ◌≡◌, refl, ap, sym, ◌∙◌, true, false, none, some, ◌⊎◌, inl, inr, ok,
  ◌==◌, ==_iff, lt→ltb,
}
use sol_svm_contracts.Mailbox.State.{
  MessageV1Info, InboundMessagePath, State as MailboxState, Runtime as MailboxRuntime,
}
use sol_svm_contracts.Mailbox.Message.{to_session_payload}
use sol_svm_contracts.Bridge.State.{
  Config, RemoteBridgeConfig, LocalTokenConfig, RemoteTokenConfig, TokenAccount, put, put₂,
  Surroundings, Runtime,
}
use sol_svm_contracts.Bridge.Messages.{Mint, from_message}
use sol_svm_contracts.Bridge.Instruction.{Receive}
use sol_svm_contracts.Bridge.Receiving.{
  is_recipient, execute_mint, receive_checks, gmp_receive_accounts, gmp_receive,
}

module _ {Bucket LimitConfig Tokens : Type 0} (runtime : Runtime Bucket LimitConfig Tokens)
    (mailbox : MailboxRuntime (Surroundings Bucket Tokens)) where
  -- The accounts that a receipt of a message for the token needs, for the recipient that it names or
  -- the associated account of that owner: the bridge is open and named the mailbox, which signs with
  -- the message account, the path and the bridge of the source chain are configured, and so is the
  -- token, for receipts; and the message is new.
  pub record MayReceive (hash : ℕ) (r : Receive) (st : MailboxState (Surroundings Bucket Tokens))
      (w : Surroundings Bucket Tokens) (info : MessageV1Info) (token : RemoteTokenConfig Bucket)
      (recipient : ℕ) : Type 0 where
    pub c : Config
    pub account : TokenAccount
    pub inbound : InboundMessagePath
    pub there : RemoteBridgeConfig
    pub local : LocalTokenConfig
    pub is_info : st.messages hash ≡ some info
    pub is_config : w.bridge.config ≡ some c
    pub is_open : c.paused ≡ false
    pub is_mailbox : c.mailbox ≡ runtime.mailbox_id
    pub is_signed : r.message_is_signer ≡ true
    pub is_new : w.bridge.messages_handled hash ≡ none
    pub is_account : runtime.token_account r.recipient w.tokens ≡ some account
    pub is_of_mint : account.mint ≡ r.token_mint
    pub is_of_program : account.token_program ≡ r.token_program
    pub is_recipient :
        (r.recipient ≡ recipient)
        ⊎ ((r.recipient ≡ runtime.associated_token_address recipient r.token_mint r.token_program)
            × (account.owner ≡ recipient))
    pub is_mint : runtime.is_mint r.token_mint w.tokens ≡ true
    pub is_inbound : st.inbound_message_paths r.path ≡ some inbound
    pub is_chain : inbound.source_chain_id ≡ r.path
    pub is_path : inbound.identifier ≡ info.message.message_path_identifier
    pub is_there : w.bridge.remote_bridge_configs r.path ≡ some there
    pub is_sender : there.bridge ≡ info.message.sender
    pub is_local : w.bridge.local_token_configs r.token_mint ≡ some local
    pub is_local_mint : local.mint ≡ r.token_mint
    pub is_token : w.bridge.remote_token_configs r.token_mint r.path ≡ some token
    pub is_enabled : token.direction / 2 % 2 ≡ 1

  recipient_ok :
      (r : Receive) (account : TokenAccount) (recipient : ℕ)
      → (r.recipient ≡ recipient)
        ⊎ ((r.recipient ≡ runtime.associated_token_address recipient r.token_mint r.token_program)
            × (account.owner ≡ recipient))
      → is_recipient runtime mailbox r account recipient ≡ true
  recipient_ok r account recipient (inl e) = rw ((==_iff recipient r.recipient).1 (sym e)) refl
  recipient_ok r account recipient (inr (e, owner)) = elim (Bool-cases (recipient == r.recipient)) [
    | inl same ↦ rw (same) refl
    | inr ne ↦ rw (ne, (==_iff _ _).1 e, (==_iff _ _).1 owner) refl
  ]

  constraints_hold :
      (hash : ℕ) (r : Receive) (st : MailboxState (Surroundings Bucket Tokens))
      (w : Surroundings Bucket Tokens) (info : MessageV1Info) (token : RemoteTokenConfig Bucket)
      (recipient : ℕ)
      → (x : MayReceive hash r st w info token recipient)
      → receive_checks runtime mailbox hash r
          (record {
            config = x.c;
            message = info.message;
            recipient = x.account;
            inbound = x.inbound;
            remote_bridge = x.there;
            remote_token = token;
          })
          x.local
          w
        ≡ ok tt
  unfolding receive_checks
  constraints_hold hash r st w info token recipient x =
      let mailbox_ok = (==_iff _ _).1 (sym x.is_mailbox) in
      let mint_ok = (==_iff _ _).1 x.is_of_mint in
      let program_ok = (==_iff _ _).1 x.is_of_program in
      let local_ok = (==_iff _ _).1 (sym x.is_local_mint) in
      let sender_ok = (==_iff _ _).1 x.is_sender in
      let enabled_ok = (==_iff _ _).1 x.is_enabled in
      let chain_ok = (==_iff _ _).1 x.is_chain in
      let path_ok = (==_iff _ _).1 x.is_path in
      rw
        (
          x.is_mint, x.is_new, mailbox_ok, x.is_signed, x.is_open, mint_ok, program_ok, local_ok,
          sender_ok, enabled_ok, chain_ok, path_ok,
        )
        refl

  checks_pass :
      (hash : ℕ) (r : Receive) (st : MailboxState (Surroundings Bucket Tokens))
      (w : Surroundings Bucket Tokens) (info : MessageV1Info) (token : RemoteTokenConfig Bucket)
      (recipient : ℕ)
      → (x : MayReceive hash r st w info token recipient)
      → gmp_receive_accounts runtime mailbox hash r st w
        ≡ ok (record {
          config = x.c;
          message = info.message;
          recipient = x.account;
          inbound = x.inbound;
          remote_bridge = x.there;
          remote_token = token;
        })
  unfolding gmp_receive_accounts receive_checks
  checks_pass hash r st w info token recipient x =
      let at_chain = ap (λ k. w.bridge.remote_bridge_configs k) x.is_chain ∙ x.is_there in
      let of_chain =
        ap (λ k. w.bridge.remote_token_configs r.token_mint k) x.is_chain ∙ x.is_token in
      rw (x.is_info, x.is_config, x.is_account, x.is_inbound, at_chain, x.is_local, of_chain)
        (rw (constraints_hold hash r st w info token recipient x) refl)

  -- The bridge receives a message.
  pub gmp_receive_succeeds :
      (hash : ℕ) (r : Receive) (st : MailboxState (Surroundings Bucket Tokens))
      (w : Surroundings Bucket Tokens) (info : MessageV1Info) (token : RemoteTokenConfig Bucket)
      (mint : Mint) (bucket : Bucket) (tokens : Tokens)
      → MayReceive hash r st w info token mint.recipient
      → mailbox.sha256 (to_session_payload info.message) ≡ hash
      → from_message info.message.body ≡ ok mint
      → mint.token_address ≡ r.token_mint
      → 0 < mint.amount
      → runtime.consume mint.amount w.tokens token.inbound_rate_limit ≡ some bucket
      → runtime.mint_to r.token_program r.token_mint r.recipient r.mint_authority
          runtime.token_authority mint.amount w.tokens
        ≡ some tokens
      → gmp_receive runtime mailbox hash r st w
        ≡ ok (
          record {
            bridge = record w.bridge {
              messages_handled = put hash (some tt) w.bridge.messages_handled;
              remote_token_configs =
                  put₂ r.token_mint r.path
                    (some (record token { inbound_rate_limit = bucket }))
                    w.bridge.remote_token_configs;
            };
            tokens = tokens;
          },
          record { amount = mint.amount; message = mint.message },
        )
  unfolding gmp_receive execute_mint
  gmp_receive_succeeds hash r st w info token mint bucket tokens x hashed read is_token positive
        limit minted =
      let hash_ok = (==_iff _ hash).1 hashed in
      let token_ok = (==_iff _ _).1 is_token in
      let recipient_ok' = recipient_ok r x.account mint.recipient x.is_recipient in
      let amount_ok = lt→ltb 0 mint.amount positive in
      rw (checks_pass hash r st w info token mint.recipient x) (
        rw (hash_ok) (
          rw (read) (
            rw (token_ok, recipient_ok', amount_ok)
              (rw (limit) (rw (minted) (rw (x.is_chain) refl))))))

-- ===== src/AssetRouter/Messages/Requests.antt =====
-- What the ledger reads of the requests of a redemption.
use sol_svm_contracts.Base.{ℕ, ◌≡◌, refl, List, ◌++◌, length, replicate}
use sol_svm_contracts.Base.Bytes.{to_be, u64_word}
use sol_svm_contracts.AssetRouter.Messages.{Redeem, RedeemForBtc, redeem_body, redeem_for_btc_body}
use sol_svm_contracts.AssetRouter.Messages.Layout.{zeros_after, padded-zeros}

-- What the ledger reads of a redemption of the native mint for bitcoin: the selector, the token account
-- that pays, where the script stands, the amount, and the script with its length, padded with zeros.
abbrev pub native_request : (sender : ℕ) (script : List ℕ) (amount : ℕ) → List ℕ
native_request sender script amount =
    to_be 4 0x4e3e5047
    ++ (to_be 32 sender
        ++ (u64_word 96
            ++ (u64_word amount
                ++ (u64_word (length script)
                    ++ (script ++ replicate (zeros_after (length script)) 0)))))

-- Of a redemption of a token: the selector, the destination chain, the mint, the token account that
-- pays, where the recipient stands, the amount, and the recipient with its length, padded with zeros.
abbrev pub token_request : (to_lchain_id mint sender : ℕ) (recipient : List ℕ) (amount : ℕ) → List ℕ
token_request to_lchain_id mint sender recipient amount =
    to_be 4 0xaa3db85f
    ++ (to_be 32 to_lchain_id
        ++ (to_be 32 mint
            ++ (to_be 32 sender
                ++ (u64_word 160
                    ++ (u64_word amount
                        ++ (u64_word (length recipient)
                            ++ (recipient ++ replicate (zeros_after (length recipient)) 0)))))))

pub redeem_for_btc_body-native :
    (m : RedeemForBtc) → redeem_for_btc_body m ≡ native_request m.sender m.script_pubkey m.amount
unfolding redeem_for_btc_body
redeem_for_btc_body-native m = rw (padded-zeros m.script_pubkey) refl

pub redeem_body-token :
    (m : Redeem)
    → redeem_body m
      ≡ token_request m.destination_chain_id m.from_token_address m.sender m.recipient m.amount
unfolding redeem_body
redeem_body-token m = rw (padded-zeros m.recipient) refl

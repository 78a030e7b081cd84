-- ===== src/Lib.antt =====
-- A model of the programs of this repository that decide which messages are genuine, and what holds
-- of them.
--
-- The consortium program (programs/consortium) notarizes payloads: a set of weighted validators
-- signs the hash of a payload, anyone posts the signatures to a session, and a session whose weight
-- reaches the threshold turns into an account that records the payload as validated. The validator
-- set is replaced the same way. The mailbox program (programs/mailbox) sends messages to other
-- chains, for a fee and with consecutive nonces, delivers messages of other chains whose payload
-- the consortium has validated, and hands each of them to its recipient once. The bascule program
-- (programs/bascule) is a second check for deposits: a reporter records each deposit, and a
-- withdrawal at or above a threshold goes through only for a recorded deposit, and only once. The
-- ratio oracle (programs/ratio_oracle) keeps the ratio of a token, which payloads of the consortium
-- update. The bridge (programs/bridge) burns tokens and sends a message for it through the mailbox,
-- and mints tokens when the mailbox hands it such a message. The bascule for mints
-- (programs/bascule_gmp) is a second check for mints: a mint at or above a threshold goes through
-- only if a reporter has recorded it with a signature of a trusted signer, and any mint only once.
-- The asset router (programs/asset_router) mints bitcoin's representation for deposit payloads that
-- the consortium has validated and for messages of the ledger, and burns tokens for stakes and
-- redemptions, of which it tells the ledger through the mailbox; it asks the two bascules before it
-- mints.
--
-- Files
--   Base: outcomes of an instruction (Base/Fallible), big-endian bytes and readers (Base/Bytes),
--     lists and tests over the native numbers.
--   Consortium/State, Instruction: programs/consortium/src/state.rs, errors.rs, constants.rs and
--     the arguments of lib.rs. Consortium/Payload: utils/session_payloads.rs, with Payload/Valset
--     on what is accepted and Payload/RoundTrip on the decoder. Consortium/Signatures:
--     utils/signatures.rs and the loop of instructions/post_session_signatures.rs.
--     Consortium/Program: the handlers in instructions/, and `exec`, which is lib.rs. Below it:
--     Inversion (what a handler that succeeds has found), Invariant, Reach, Quorum, Succession,
--     Authority, Liveness, Chunks, then Runs and Witnesses with concrete inputs.
--   Mailbox/State, Instruction, Message (utils/message_utils.rs), Admin (the instructions that
--     configure) and Program (send_message.rs, deliver_message.rs, handle_message.rs,
--     utils/cpi.rs), in the same way, and Program/Handling on the call of the recipient.
--     Program/Delivery puts both programs side by side.
--   Bascule/State, Allowlist (the list of withdrawal validators, a `Vec` in the source) and Program
--     (programs/bascule/src/instructions), with Program/Deposits, Validators and Identity.
--   RatioOracle/State, Program (programs/ratio_oracle/src/instructions and utils) and
--     Program/Ratio.
--   BasculeGmp/State and Program (programs/bascule_gmp/src/instructions), with Program/Inversion,
--     Mints (runs of instructions) and Reports.
--   Bridge/State, Messages (utils/gmp_messages.rs, with Messages/RoundTrip and Messages/Errors),
--     Instruction (lib.rs), Admin (the instructions that configure), Sending (deposit.rs),
--     Receiving (gmp_receive.rs; both with utils/token_actions.rs) and Program, which has `exec`
--     and the call by the mailbox's handle_message.rs. Below it: Inversion, Deposits and Effects
--     (what an instruction that succeeds has found and done), Receipts, Discounts, Transfers,
--     Acceptance and Arrivals (the bridges of two chains), Handling, Trust (the bridge, the mailbox
--     and the consortium program side by side), then Runs, Reached, Witnesses, DepositWitnesses and
--     ArrivalWitnesses with concrete inputs.
--   AssetRouter/State, Payloads (utils/consortium_payloads.rs, fee.rs), Messages
--     (utils/gmp_messages.rs, bitcoin_utils.rs; with Messages/Layout and Messages/Requests), Admin
--     (the instructions that configure), Minting (mint_from_payload.rs, utils/mod.rs), WithFee
--     (mint_with_fee.rs, utils/ed25519.rs), Sending (deposit.rs, redeem.rs, redeem_for_btc.rs),
--     Receiving (gmp_receive.rs), Instruction and Program (lib.rs). Below them, on what an
--     instruction that succeeds has found and done: Minting/Spending, WithFee/Splitting and
--     Approvals, Sending/Redemptions, Settling, Fees and Frame, Receiving/Crediting; and on runs of
--     instructions Program/Effects and Spends. Standins and the Witnesses have concrete inputs.
--
-- How code corresponds to the model. An account at a derived address is an entry of a map from the
-- seeds; `init` asks that it is vacant, `close` removes it. An instruction is a function from the
-- signer, its arguments and the state to an outcome: `ok` with the new state, `err` with the
-- program's error code, or `fault` for a panic or a refusal of the framework. A transaction that
-- fails changes nothing. The framework deserializes the accounts, creates those with `init` and
-- then checks the other constraints, in the order of the struct; the model keeps that order. The
-- build has overflow checks on, so arithmetic that leaves 64 bits is a panic. Keys, hashes,
-- identifiers and signatures are the numbers that their bytes form, most significant first. Loops
-- over a list are recursion on it, and a loop up to a decoded length is recursion on that length.
-- The loop over chunks of 32 bytes (AssetRouter/Messages) is the only one on fuel, the number of
-- bytes: it takes at least one each time, and Messages/Layout says in closed form what it returns.
--
-- Parameters. sha256, keccak256 and secp256k1 recovery, the test for points of the curve, the
-- transfer of lamports, the address of a message, the call of a recipient, the token programs, and
-- the rate limit of the token pool library are functions about which nothing is assumed, but that
-- theorems on runs of the bridge and of the asset router ask that a transfer of lamports leaves the
-- accounts of that program as they are, and those on deposits and redemptions that a derived
-- address is not on the curve. A deposit runs the model of the mailbox, on a state that holds the
-- bridge's accounts as part of what surrounds the mailbox; where the mailbox calls the bridge, its
-- parameter for calls is filled with the bridge's model. Two payloads with one hash are not told
-- apart by the code either: a theorem that speaks of a payload says which hash it has.
--
-- Not modelled. Events, logs, rent, compute and the limits on account growth leave no trace in the
-- state. A read of more bytes than there are fails as in the code, also where the code would first
-- fail to reserve the memory. A recipient cannot call back into the mailbox, which the runtime
-- forbids. The other programs (lbtc, registry, lombard_token_pool), the mocks and the copy of the
-- CCIP libraries are not part of it.
pub mod Base
pub mod AssetRouter
pub mod Bascule
pub mod BasculeGmp
pub mod Consortium
pub mod Mailbox
pub mod RatioOracle
pub mod Bridge

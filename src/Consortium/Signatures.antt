-- ===== src/Consortium/Signatures.antt =====
-- Collecting signatures: programs/consortium/src/utils/signatures.rs and the loop of
-- programs/consortium/src/instructions/post_session_signatures.rs.
pub mod Weight
pub mod Progress
pub mod Quorum
use sol_svm_contracts.Base.{
  ℕ, Bool, true, false, List, [], ◌∷◌, Option, none, some, ◌==◌, if◌then◌else◌, set, Outcome, ok,
  ◌>>=◌, at, add_checked,
}
use sol_svm_contracts.Consortium.State.{Error, Config, Session, Crypto}

module _ (crypto : Crypto) where
  unfoldable pub recovers : (recovery_id validator signature hash : ℕ) → Option Bool
  recovers recovery_id validator signature hash =
      elim (crypto.secp256k1_recover hash recovery_id signature) [
        | none ↦ none
        | some pubkey ↦ some (pubkey == validator)
      ]

  -- Recovery with v = 27, and if that gives another key with v = 28; a failed recovery is `false`.
  unfoldable pub check_signature : (validator signature hash : ℕ) → Bool
  unfolding recovers
  check_signature validator signature hash = elim (recovers 0 validator signature hash) [
    | none ↦ false
    | some true ↦ true
    | some false ↦ elim (recovers 1 validator signature hash) [ none ↦ false | some b ↦ b ]
  ]

  -- The validator's signature is checked, and its weight added, if it has not signed yet.
  unfoldable pub add_signature :
      Config → (hash signature index : ℕ) → Session → Outcome Error Session
  add_signature c hash signature index s = do
    validator ← at c.current_validators index
    let counted = do
      weight ← at c.current_weights index
      total ← add_checked 64 s.weight weight
      ok (record s { signed = set s.signed index true; weight = total })
    if check_signature validator signature hash then counted else ok s

  -- The body of the loop for one signature and the index of its validator.
  unfoldable pub post_signature :
      Config → (hash signature index : ℕ) → Session → Outcome Error Session
  post_signature c hash signature index s = do
    already ← at s.signed index
    if already then ok s else add_signature c hash signature index s

  -- `signatures.iter().zip(indices.iter()).for_each(…)`, which stops with the shorter list.
  unfoldable pub post_signatures :
      Config → (hash : ℕ) → (signatures indices : List ℕ) → Session → Outcome Error Session
  post_signatures c hash [] indices s = ok s
  post_signatures c hash (x ∷ xs) [] s = ok s
  post_signatures c hash (x ∷ xs) (i ∷ is) s = do
    s' ← post_signature c hash x i s
    post_signatures c hash xs is s'

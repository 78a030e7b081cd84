-- ===== src/Bascule/Program/Identity.antt =====
-- What the id of a deposit identifies.
use sol_svm_contracts.Base.{ℕ, ◌^◌, ◌<◌, ◌≡◌, sym, ap, ◌∙◌, List, [], ◌++◌, ok, arith}
use mathlib.Core.List.{append-nil}
use sol_svm_contracts.Base.Bytes.{to_be, read_array, read_array-append}
use sol_svm_contracts.Bascule.State.{invalid_deposit_id}
use sol_svm_contracts.Bascule.Program.{hash_data}

to_be-injective :
    (n x y : ℕ) (r s : List ℕ)
    → x < 256 ^ n
    → y < 256 ^ n
    → (to_be n x ++ r) ≡ (to_be n y ++ s)
    → (x ≡ y) × (r ≡ s)
to_be-injective n x y r s hx hy h =
    let left = read_array-append invalid_deposit_id n x r hx in
    let right = read_array-append invalid_deposit_id n y s hy in
    let both : ok (x, r) ≡ ok (y, s) =
      sym left ∙ (ap (read_array invalid_deposit_id n) h ∙ right) in
    (cc both, cc both)

-- The bytes that a deposit id is the hash of determine the recipient, the amount, the transaction and
-- the output, if these have 32, 8, 32 and 4 bytes.
pub hash_data-injective :
    (recipient amount tx_id tx_vout recipient' amount' tx_id' tx_vout' : ℕ)
    → recipient < 256 ^ 32
    → recipient' < 256 ^ 32
    → amount < 256 ^ 8
    → amount' < 256 ^ 8
    → tx_id < 256 ^ 32
    → tx_id' < 256 ^ 32
    → tx_vout < 256 ^ 4
    → tx_vout' < 256 ^ 4
    → hash_data recipient amount tx_id tx_vout ≡ hash_data recipient' amount' tx_id' tx_vout'
    → (recipient ≡ recipient') × (amount ≡ amount') × (tx_id ≡ tx_id') × (tx_vout ≡ tx_vout')
unfolding hash_data
hash_data-injective r a t v r' a' t' v' hr hr' ha ha' ht ht' hv hv' h =
    let (_, h₁) = to_be-injective 32 0 0 _ _ (omega arith) (omega arith) h in
    let (_, h₂) = to_be-injective 4 0x03534f4c 0x03534f4c _ _ (omega arith) (omega arith) h₁ in
    let (e₁, h₃) = to_be-injective 32 r r' _ _ hr hr' h₂ in
    let (e₂, h₄) = to_be-injective 8 a a' _ _ ha ha' h₃ in
    let (e₃, h₅) = to_be-injective 32 t t' _ _ ht ht' h₄ in
    let (e₄, _) =
      to_be-injective 4 v v' [] [] hv hv'
        (append-nil (to_be 4 v) ∙ (h₅ ∙ sym (append-nil (to_be 4 v')))) in
    (e₁, e₂, e₃, e₄)

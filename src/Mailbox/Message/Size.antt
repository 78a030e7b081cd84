-- ===== src/Mailbox/Message/Size.antt =====
-- How long the ABI form of a message is.
use sol_svm_contracts.Base.{
  ℕ, ◌+◌, ◌-◌, ◌%◌, ◌≤◌, ◌≡◌, refl, sym, ap, ◌∙◌, subst, List, length, length-append,
  length-replicate, drop, length-drop, Outcome, ok, require, >>=-eq-ok, arith, ◌==◌, leb,
}
use sol_svm_contracts.Base.Bytes.{
  length-to_be, length-u64_word, length-read_exact, length-read_array, length-read_u64, read_exact,
  read_array, read_u64,
}
use sol_svm_contracts.Mailbox.State.{
  Error, MessageV1, buffer_io_error, invalid_payload_length, invalid_payload_selector,
}
use sol_svm_contracts.Mailbox.Message.{
  message_v1_selector, accountable_abi_bytes, from_session_payload, padding, to_session_payload,
}
use sol_svm_contracts.Mailbox.Message.RoundTrip.{length-caller_word}

length-padding : (n : ℕ) → length (padding n) ≡ (32 - n % 32) % 32
unfolding padding
length-padding n = length-replicate ((32 - n % 32) % 32) 0

-- The ABI form of a message has exactly as many bytes as `accountable_abi_bytes` says.
pub length-to_session_payload :
    (m : MessageV1) → length (to_session_payload m) ≡ accountable_abi_bytes (length m.body)
unfolding to_session_payload
length-to_session_payload m =
    simp (length-append, length-u64_word, length-to_be, length-caller_word, length-padding)
      (ground arith)

add_up :
    (b r₁ r₂ r₃ r₄ r₅ r₆ r₈ r₉ n : ℕ)
    → b ≡ 4 + r₁
    → r₁ ≡ 32 + r₂
    → r₂ ≡ 32 + r₃
    → r₃ ≡ 32 + r₄
    → r₄ ≡ 32 + r₅
    → r₅ ≡ 32 + r₆
    → r₆ - 32 ≡ 32 + r₈
    → r₈ ≡ n + r₉
    → 228 + n ≤ b
add_up b r₁ r₂ r₃ r₄ r₅ r₆ r₈ r₉ n = omega arith

ok-body :
    (m : MessageV1) (body : List ℕ) (m' : MessageV1)
    → ◌≡◌ {A = Outcome Error MessageV1} (ok m') (ok m)
    → m'.body ≡ body
    → body ≡ m.body
ok-body m body m' e b = ground arith

-- A payload that decodes has 228 bytes besides the body that it carries.
pub from_session_payload-size :
    (bytes : List ℕ) (m : MessageV1)
    → from_session_payload bytes ≡ ok m
    → 228 + length m.body ≤ length bytes
unfolding from_session_payload
from_session_payload-size bytes m h =
    let (_, long, h₀) = >>=-eq-ok (require (leb 228 (length bytes)) invalid_payload_length) _ h in
    let ((selector, r₁), e₁, h₁) = >>=-eq-ok (read_array buffer_io_error 4 bytes) _ h₀ in
    let (_, known, h₂) =
      >>=-eq-ok (require (selector == message_v1_selector) invalid_payload_selector) _ h₁ in
    let ((identifier, r₂), e₂, h₃) = >>=-eq-ok (read_array buffer_io_error 32 r₁) _ h₂ in
    let ((nonce, r₃), e₃, h₄) = >>=-eq-ok (read_u64 buffer_io_error r₂) _ h₃ in
    let ((sender, r₄), e₄, h₅) = >>=-eq-ok (read_array buffer_io_error 32 r₃) _ h₄ in
    let ((recipient, r₅), e₅, h₆) = >>=-eq-ok (read_array buffer_io_error 32 r₄) _ h₅ in
    let ((caller, r₆), e₆, h₇) = >>=-eq-ok (read_array buffer_io_error 32 r₅) _ h₆ in
    let ((n, r₈), e₈, h₈) = >>=-eq-ok (read_u64 buffer_io_error (drop 32 r₆)) _ h₇ in
    let ((body, r₉), e₉, h₉) = >>=-eq-ok (read_exact buffer_io_error n r₈) _ h₈ in
    let (body_length, taken) = length-read_exact buffer_io_error n r₈ body r₉ e₉ in
    let same : length m.body ≡ n = ap length (sym (ok-body m body _ h₉ refl)) ∙ body_length in
    subst (λ k. 228 + k ≤ length bytes) (sym same)
      (add_up (length bytes) (length r₁) (length r₂) (length r₃) (length r₄) (length r₅) (length r₆)
        (length r₈) (length r₉) n (length-read_array buffer_io_error 4 bytes selector r₁ e₁)
        (length-read_array buffer_io_error 32 r₁ identifier r₂ e₂)
        (length-read_u64 buffer_io_error r₂ nonce r₃ e₃)
        (length-read_array buffer_io_error 32 r₃ sender r₄ e₄)
        (length-read_array buffer_io_error 32 r₄ recipient r₅ e₅)
        (length-read_array buffer_io_error 32 r₅ caller r₆ e₆)
        (sym (length-drop 32 r₆) ∙ length-read_u64 buffer_io_error (drop 32 r₆) n r₈ e₈) taken)

-- ===== src/Consortium/Program/Chunks.antt =====
-- A payload that is posted in chunks.
use sol_svm_contracts.Base.{
  ℕ, ◌≤◌, ◌<◌, ◌≡◌, refl, List, [], ◌∷◌, ◌++◌, none, some, length, length-append, All, Outcome, ok,
  ◌>>=◌, arith,
}
use mathlib.Core.List.{append_assoc, append-nil}
use sol_svm_contracts.Consortium.State.{Error, State, put_session_payload}
use sol_svm_contracts.Consortium.Program.{post_session_payload}

-- One call for each chunk, in order.
abbrev pub post_chunks : (payer hash len : ℕ) → List (List ℕ) → State → Outcome Error State
post_chunks payer hash len [] st = ok st
post_chunks payer hash len (chunk ∷ chunks) st = do
  st' ← post_session_payload payer hash chunk len st
  post_chunks payer hash len chunks st'

abbrev pub concat : List (List ℕ) → List ℕ
concat [] = []
concat (chunk ∷ chunks) = chunk ++ concat chunks

post_first :
    (payer hash len : ℕ) (chunk : List ℕ) (st : State)
    → st.session_payloads payer hash ≡ none
    → 0 < length chunk
    → length chunk ≤ len
    → (st' : State) × (post_session_payload payer hash chunk len st ≡ ok st')
      × (st'.session_payloads payer hash ≡ some (record { payload = chunk; allocated = len }))
unfolding post_session_payload
post_first payer hash len chunk st e pos fits = (
  record st {
    session_payloads =
        put_session_payload payer hash (some (record { payload = chunk; allocated = len }))
          st.session_payloads;
  },
  ground arith,
  ground arith,
)

post_next :
    (payer hash len : ℕ) (chunk before : List ℕ) (st : State)
    → st.session_payloads payer hash ≡ some (record { payload = before; allocated = len })
    → 0 < length chunk
    → length (before ++ chunk) ≤ len
    → (st' : State) × (post_session_payload payer hash chunk len st ≡ ok st')
      × (st'.session_payloads payer hash
          ≡ some (record { payload = before ++ chunk; allocated = len }))
unfolding post_session_payload
post_next payer hash len chunk before st e pos fits = (
  record st {
    session_payloads =
        put_session_payload payer hash
          (some (record { payload = before ++ chunk; allocated = len })) st.session_payloads;
  },
  ground arith,
  ground arith,
)

post_rest :
    (payer hash len : ℕ) (chunks : List (List ℕ)) (before : List ℕ) (st : State)
    → st.session_payloads payer hash ≡ some (record { payload = before; allocated = len })
    → All (λ chunk. 0 < length chunk) chunks
    → length (before ++ concat chunks) ≤ len
    → (st' : State) × (post_chunks payer hash len chunks st ≡ ok st')
      × (st'.session_payloads payer hash
          ≡ some (record { payload = before ++ concat chunks; allocated = len }))
post_rest payer hash len [] before st e pos fits = (st, refl, rw (append-nil before) e)
post_rest payer hash len (chunk ∷ chunks) before st e pos fits =
    let (st₁, posted, e₁) = post_next payer hash len chunk before st e pos.0 (
      omega (
        arith,
        length-append before chunk,
        length-append before (chunk ++ concat chunks),
        length-append chunk (concat chunks),
      )) in
    let assoc = append_assoc before chunk (concat chunks) in
    let (st₂, rest, e₂) =
      post_rest payer hash len chunks (before ++ chunk) st₁ e₁ pos.1 (rw assoc fits) in
    (st₂, rw posted rest, rw assoc at e₂)

-- Non-empty chunks that are posted in order into a new account, each call with the same length and
-- no more bytes in all than that, go through and leave their concatenation as the payload.
pub post_chunks-concat :
    (payer hash len : ℕ) (chunk : List ℕ) (chunks : List (List ℕ)) (st : State)
    → st.session_payloads payer hash ≡ none
    → All (λ c. 0 < length c) (chunk ∷ chunks)
    → length (concat (chunk ∷ chunks)) ≤ len
    → (st' : State) × (post_chunks payer hash len (chunk ∷ chunks) st ≡ ok st')
      × (st'.session_payloads payer hash
          ≡ some (record { payload = concat (chunk ∷ chunks); allocated = len }))
post_chunks-concat payer hash len chunk chunks st e pos fits =
    let (st₁, posted, e₁) =
      post_first payer hash len chunk st e pos.0
        (omega (arith, length-append chunk (concat chunks))) in
    let (st₂, rest, e₂) = post_rest payer hash len chunks chunk st₁ e₁ pos.1 fits in
    (st₂, rw posted rest, e₂)

-- ===== src/Consortium/Program/Runs.antt =====
-- Runs of the consortium program: a set of two validators validates the payload that replaces it.
use sol_svm_contracts.Base.{
  ℕ, ◌-◌, ◌≡◌, refl, List, [], ◌∷◌, true, false, none, some, ok, err, fault, panicked, arith,
  length, ltb, if◌then◌else◌,
}
use sol_svm_contracts.Base.Bytes.{to_be, u64_word}
use sol_svm_contracts.Consortium.State.{
  Config, State, Crypto, no_accounts, put_session, put_session_payload, put_validated_payload,
  not_enough_signatures,
}
use sol_svm_contracts.Consortium.Instruction.{Instruction}
use sol_svm_contracts.Consortium.Payload.{
  UpdateValSetPayload, from_session_payload, differs_from, check_duplicates, add_weights,
  validate_valset,
}
use sol_svm_contracts.Consortium.Payload.RoundTrip.{
  Skipped, encode, encode_validator, encode_validators, encode_weights, from_session_payload-encode,
}
use sol_svm_contracts.Consortium.Signatures.{
  recovers, check_signature, add_signature, post_signature, post_signatures,
}
use sol_svm_contracts.Consortium.Program.{
  exec, initialize, create_session, post_session_signatures, post_session_payload, finalize_session,
  initialize_config_with_valset, set_initial_valset, update_valset, next_valset,
}
use sol_svm_contracts.Consortium.Program.Reach.{Leads, start, step, Reach}

-- A stand-in for the runtime: the signature of `v` is the sum of `v` and the hash.
abbrev pub crypto : Crypto
crypto = record {
  sha256 = λ bytes. length bytes;
  secp256k1_recover =
      λ hash id signature. if ltb signature hash then none else some (signature - hash);
}

abbrev pub skipped : Skipped
skipped = record {
  validators_offset = 160;
  weights_offset = 512;
  key_offsets = 64 ∷ 192 ∷ [];
  prefix = 4;
}

-- Two validators of weight 1, and both have to sign.
abbrev pub two_validators : UpdateValSetPayload
two_validators = record {
  epoch = 1;
  validators = 10 ∷ 20 ∷ [];
  weights = 1 ∷ 1 ∷ [];
  weight_threshold = 2;
  height = 5;
}

-- They hand over to a third.
abbrev pub successor : UpdateValSetPayload
successor = record {
  epoch = 2;
  validators = 30 ∷ 40 ∷ [];
  weights = 3 ∷ 1 ∷ [];
  weight_threshold = 3;
  height = 6;
}

abbrev pub payload : List ℕ
payload = encode skipped successor

abbrev pub hash : ℕ
hash = 612

pub payload_length : length payload ≡ hash
unfolding encode encode_validator encode_validators encode_weights u64_word to_be
payload_length = refl

pub decodes_successor : from_session_payload payload ≡ ok successor
decodes_successor = from_session_payload-encode skipped successor (omega arith)

abbrev pub config₀ : Config
config₀ = record {
  admin = 7;
  pending_admin = 0;
  current_epoch = 0;
  current_validators = [];
  current_weights = [];
  current_weight_threshold = 0;
  current_height = 0;
}

abbrev pub initialized : State
initialized = record no_accounts { config = some config₀ }

pub initialize-runs : exec crypto 9 (Instruction.initialize (some 9) 7) no_accounts ≡ ok initialized
unfolding exec initialize
initialize-runs = refl

abbrev pub config₁ : Config
config₁ = record {
  admin = 7;
  pending_admin = 0;
  current_epoch = 1;
  current_validators = 10 ∷ 20 ∷ [];
  current_weights = 1 ∷ 1 ∷ [];
  current_weight_threshold = 2;
  current_height = 5;
}

abbrev pub with_set : State
with_set = record initialized { config = some config₁ }

pub set_initial_valset-runs :
    exec crypto 7 (Instruction.set_initial_valset (encode skipped two_validators)) initialized
    ≡ ok with_set
unfolding exec set_initial_valset initialize_config_with_valset validate_valset check_duplicates
    differs_from add_weights
set_initial_valset-runs = rw (from_session_payload-encode skipped two_validators (omega arith))

-- Signer 5 opens a session for the payload and posts both signatures.
abbrev pub opened : State
opened = record with_set {
  sessions =
      put_session 1 5 hash (some (record { signed = false ∷ false ∷ []; weight = 0 }))
        with_set.sessions;
}

abbrev pub signed : State
signed = record opened {
  sessions =
      put_session 1 5 hash (some (record { signed = true ∷ true ∷ []; weight = 2 }))
        opened.sessions;
}

abbrev pub finalized : State
finalized = record signed {
  sessions = put_session 1 5 hash none signed.sessions;
  validated_payloads =
      put_validated_payload hash (record { latest_epoch = 1 }) signed.validated_payloads;
}

pub create_session-runs : exec crypto 5 (Instruction.create_session hash) with_set ≡ ok opened
unfolding exec create_session
create_session-runs = refl

pub post_session_signatures-runs :
    exec crypto 5 (Instruction.post_session_signatures hash (632 ∷ 622 ∷ []) (1 ∷ 0 ∷ [])) opened
    ≡ ok signed
unfolding exec post_session_signatures post_signatures post_signature add_signature check_signature
    recovers
post_session_signatures-runs = refl

pub finalize_session-runs : finalize_session 5 hash signed ≡ ok finalized
unfolding finalize_session
finalize_session-runs = refl

-- An index out of range aborts the transaction.
index_out_of_range :
    post_session_signatures crypto 5 hash (632 ∷ []) (2 ∷ []) opened ≡ fault panicked
unfolding post_session_signatures post_signatures post_signature
index_out_of_range = refl

too_few : finalize_session 5 hash opened ≡ err not_enough_signatures
unfolding finalize_session
too_few = refl

pub Reach-opened : Reach crypto opened
Reach-opened =
    step 5 (Instruction.create_session hash)
      (step 7 (Instruction.set_initial_valset (encode skipped two_validators))
        (step 9 (Instruction.initialize (some 9) 7) start initialize-runs) set_initial_valset-runs)
      create_session-runs

pub Reach-signed : Reach crypto signed
Reach-signed =
    step 5 (Instruction.post_session_signatures hash (632 ∷ 622 ∷ []) (1 ∷ 0 ∷ [])) Reach-opened
      post_session_signatures-runs

pub Reach-finalized : Reach crypto finalized
unfolding exec
Reach-finalized = step 5 (Instruction.finalize_session hash) Reach-signed finalize_session-runs

-- The payload is posted in two chunks, and installs the third validator set.
abbrev pub posted : State
posted = record finalized {
  session_payloads =
      put_session_payload 5 hash (some (record { payload = payload; allocated = 612 }))
        finalized.session_payloads;
}

abbrev pub config₂ : Config
config₂ = record config₁ {
  current_epoch = 2;
  current_validators = 30 ∷ 40 ∷ [];
  current_weights = 3 ∷ 1 ∷ [];
  current_weight_threshold = 3;
  current_height = 6;
}

abbrev pub updated : State
updated = record posted {
  config = some config₂;
  session_payloads = put_session_payload 5 hash none posted.session_payloads;
}

pub post_session_payload-runs :
    exec crypto 5 (Instruction.post_session_payload hash payload 612) finalized ≡ ok posted
unfolding exec post_session_payload encode encode_validator encode_validators encode_weights
    u64_word to_be
post_session_payload-runs = refl

pub update_valset-runs : update_valset crypto 5 hash posted ≡ ok updated
unfolding update_valset next_valset validate_valset check_duplicates differs_from add_weights
update_valset-runs = rw (payload_length, decodes_successor)

pub Reach-posted : Reach crypto posted
Reach-posted =
    step 5 (Instruction.post_session_payload hash payload 612) Reach-finalized
      post_session_payload-runs

pub signed_leads_updated : Leads crypto signed updated
unfolding exec
signed_leads_updated =
    step 5 (Instruction.update_valset hash)
      (step 5 (Instruction.post_session_payload hash payload 612)
        (step 5 (Instruction.finalize_session hash) start finalize_session-runs)
        post_session_payload-runs)
      update_valset-runs

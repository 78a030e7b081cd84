-- ===== src/Consortium/Program/Witnesses.antt =====
-- The theorems about the consortium program at concrete inputs.
use sol_svm_contracts.Base.{
  ◌+◌, ◌<◌, ◌≡◌, ◌↔◌, refl, List, [], ◌∷◌, Bool, none, some, ◌⊎◌, ok, arith,
}
use sol_svm_contracts.Consortium.State.{Config, SessionPayload, State}
use sol_svm_contracts.Consortium.Instruction.{Instruction}
use sol_svm_contracts.Consortium.Payload.{
  UpdateValSetPayload, from_session_payload, validate_valset,
}
use sol_svm_contracts.Consortium.Payload.RoundTrip.{encode, from_session_payload-encode}
use sol_svm_contracts.Consortium.Payload.Valset.{IsValset, validate_valset-ok_iff}
use sol_svm_contracts.Consortium.Signatures.{recovers, check_signature}
use sol_svm_contracts.Consortium.Program.Runs.{
  crypto, skipped, two_validators, successor, hash, config₀, initialized, config₁, with_set, opened,
  signed, finalized, posted, updated, set_initial_valset-runs, post_session_signatures-runs,
  finalize_session-runs, update_valset-runs, Reach-opened, Reach-signed, Reach-finalized,
  Reach-posted, signed_leads_updated,
}
use sol_svm_contracts.Consortium.Program.Invariant.{IsConsistent}
use sol_svm_contracts.Consortium.Program.Reach.{exec-IsConsistent, Reach-IsConsistent}
use sol_svm_contracts.Consortium.Program.Quorum.{
  HasQuorum, finalize_session-HasQuorum, WasValidated, validated_payload-HasQuorum,
}
use sol_svm_contracts.Consortium.Program.Liveness.{notarize, notarize_validates}
use sol_svm_contracts.Consortium.Program.Authority.{Change, exec-Change}
use sol_svm_contracts.Consortium.Program.Succession.{
  SameValset, Leads-epoch, update_valset-HasQuorum,
}

from_session_payload-encode_example : from_session_payload (encode skipped successor) ≡ ok successor
from_session_payload-encode_example = from_session_payload-encode skipped successor (omega arith)

validate_valset-ok_iff_example :
    (validate_valset two_validators ≡ ok tt) ↔ IsValset (10 ∷ 20 ∷ []) (1 ∷ 1 ∷ []) 2 1
validate_valset-ok_iff_example = validate_valset-ok_iff two_validators

finalize_session-HasQuorum_example :
    (c : Config) × (marks : List Bool) × (signed.config ≡ some c)
    × HasQuorum crypto c hash marks
    × (finalized.validated_payloads hash ≡ some (record { latest_epoch = c.current_epoch }))
finalize_session-HasQuorum_example =
    finalize_session-HasQuorum crypto 5 hash Reach-signed finalize_session-runs

validated_payload-HasQuorum_example :
    WasValidated crypto hash (record { latest_epoch = 1 }) finalized
validated_payload-HasQuorum_example =
    validated_payload-HasQuorum crypto hash (record { latest_epoch = 1 }) Reach-finalized refl

exec-IsConsistent_example : IsConsistent crypto signed
exec-IsConsistent_example =
    exec-IsConsistent crypto 5
      (Instruction.post_session_signatures hash (632 ∷ 622 ∷ []) (1 ∷ 0 ∷ [])) opened signed
      (Reach-IsConsistent crypto Reach-opened) post_session_signatures-runs

update_valset-HasQuorum_example :
    (c : Config) × (marks : List Bool) × (s : SessionPayload) × (p : UpdateValSetPayload)
    × (posted.config ≡ some c)
    × (posted.session_payloads 5 hash ≡ some s)
    × HasQuorum crypto c hash marks
    × (crypto.sha256 s.payload ≡ hash)
    × (from_session_payload s.payload ≡ ok p)
    × IsValset p.validators p.weights p.weight_threshold p.epoch
    × (p.epoch ≡ c.current_epoch + 1)
    × (c.current_height < p.height)
    × (updated.config
        ≡ some (record {
          admin = c.admin;
          pending_admin = c.pending_admin;
          current_epoch = p.epoch;
          current_validators = p.validators;
          current_weights = p.weights;
          current_weight_threshold = p.weight_threshold;
          current_height = p.height;
        }))
update_valset-HasQuorum_example =
    update_valset-HasQuorum crypto 5 hash Reach-posted update_valset-runs

exec-Change_example :
    (c : Config) × (with_set.config ≡ some c) × Change crypto 7 initialized config₀ c
exec-Change_example =
    exec-Change crypto 7 (Instruction.set_initial_valset (encode skipped two_validators))
      initialized with_set config₀ set_initial_valset-runs refl

Leads-epoch_example :
    (c : Config) × (updated.config ≡ some c) × (SameValset config₁ c ⊎ (1 < c.current_epoch))
Leads-epoch_example = Leads-epoch crypto config₁ signed_leads_updated refl

notarize_validates_example :
    (st : State) × (notarize crypto config₁ 5 hash (632 ∷ 622 ∷ []) (1 ∷ 0 ∷ []) with_set ≡ ok st)
    × (st.validated_payloads hash ≡ some (record { latest_epoch = 1 }))
    × (st.sessions 1 5 hash ≡ none)
unfolding check_signature recovers
notarize_validates_example =
    notarize_validates crypto config₁ 5 hash (ground arith) (632 ∷ 622 ∷ []) (1 ∷ 0 ∷ []) refl
      ((20, refl, refl), ((10, refl, refl), tt)) with_set refl refl (ground arith) (omega arith)

-- ===== src/Consortium/Program/Inversion.antt =====
-- What a call of an instruction that goes through has found and done.
use sol_svm_contracts.Base.{
  ℕ, ◌+◌, ◌<◌, ◌≤◌, ◌≡◌, refl, false, List, [], ◌++◌, Option, none, some, inl, inr, length,
  replicate, ok, arith, Option-cases, Outcome-cases,
}
use sol_svm_contracts.Consortium.State.{
  Config, Session, SessionPayload, ValidatedPayload, State, Crypto, put_session,
  put_session_payload, put_validated_payload,
}
use sol_svm_contracts.Consortium.Payload.{
  UpdateValSetPayload, from_session_payload, validate_valset,
}
use sol_svm_contracts.Consortium.Payload.Valset.{IsValset, validate_valset-ok_iff}
use sol_svm_contracts.Consortium.Signatures.{post_signatures}
use sol_svm_contracts.Consortium.Program.{
  create_session, close_session_for_epoch, post_session_signatures, finalize_session,
  transfer_ownership, accept_ownership, with_valset, initialize_config_with_valset,
  set_initial_valset, set_initial_valset_from_session, next_valset, update_valset, initialize,
  post_session_payload,
}

abbrev pub new_session : Config → Session
new_session c = record { signed = replicate (length c.current_validators) false; weight = 0 }

pub create_session_inv :
    (payer hash : ℕ) (st st' : State)
    → create_session payer hash st ≡ ok st'
    → (c : Config) × (st.config ≡ some c)
      × (0 < c.current_epoch)
      × (st' ≡ record st {
        sessions = put_session c.current_epoch payer hash (some (new_session c)) st.sessions;
      })
unfolding create_session
create_session_inv payer hash st st' h = elim (Option-cases st.config) [
  | inl e ↦ absurd (ground arith)
  | inr (c, e) ↦ (c, e, ground arith, ground arith)
]

pub close_session_for_epoch_inv :
    (payer hash epoch : ℕ) (st st' : State)
    → close_session_for_epoch payer hash epoch st ≡ ok st'
    → st' ≡ record st { sessions = put_session epoch payer hash none st.sessions }
unfolding close_session_for_epoch
close_session_for_epoch_inv payer hash epoch st st' h = ground arith

pub finalize_session_inv :
    (payer hash : ℕ) (st st' : State)
    → finalize_session payer hash st ≡ ok st'
    → (c : Config) × (s : Session) × (st.config ≡ some c)
      × (st.sessions c.current_epoch payer hash ≡ some s)
      × (c.current_weight_threshold ≤ s.weight)
      × (st' ≡ record st {
        sessions = put_session c.current_epoch payer hash none st.sessions;
        validated_payloads =
            put_validated_payload hash
              (record { latest_epoch = c.current_epoch })
              st.validated_payloads;
      })
unfolding finalize_session
finalize_session_inv payer hash st st' h = elim (Option-cases st.config) [
  | inl e ↦ absurd (ground arith)
  | inr (c, e) ↦ elim (Option-cases (st.sessions c.current_epoch payer hash)) [
    | inl e' ↦ absurd (ground arith)
    | inr (s, e') ↦ (c, s, e, e', ground arith, ground arith)
  ]
]

module _ (crypto : Crypto) where
  pub post_session_signatures_inv :
      (payer hash : ℕ) (signatures indices : List ℕ) (st st' : State)
      → post_session_signatures crypto payer hash signatures indices st ≡ ok st'
      → (c : Config) × (s : Session) × (s' : Session) × (st.config ≡ some c)
        × (st.sessions c.current_epoch payer hash ≡ some s)
        × (0 < c.current_epoch)
        × (post_signatures crypto c hash signatures indices s ≡ ok s')
        × (st'
            ≡ record st { sessions = put_session c.current_epoch payer hash (some s') st.sessions })
  unfolding post_session_signatures
  post_session_signatures_inv payer hash signatures indices st st' h =
      elim (Option-cases st.config) [
        | inl e ↦ absurd (ground arith)
        | inr (c, e) ↦ elim (Option-cases (st.sessions c.current_epoch payer hash)) [
          | inl e' ↦ absurd (ground arith)
          | inr (s, e') ↦
              elim (Outcome-cases (post_signatures crypto c hash signatures indices s)) [
                | inl (s', posted) ↦ (c, s, s', e, e', ground arith, posted, ground arith)
                | inr failed ↦ absurd (ground arith)
              ]
        ]
      ]

  -- An update that goes through: the payload has the hash, decodes to a valid set for the next
  -- epoch, and the height grows.
  pub next_valset_inv :
      (c c' : Config) (hash : ℕ) (payload : List ℕ)
      → next_valset crypto c hash payload ≡ ok c'
      → (p : UpdateValSetPayload) × (crypto.sha256 payload ≡ hash)
        × (from_session_payload payload ≡ ok p)
        × IsValset p.validators p.weights p.weight_threshold p.epoch
        × (p.epoch ≡ c.current_epoch + 1)
        × (c.current_height < p.height)
        × (c' ≡ with_valset c p)
  unfolding next_valset
  next_valset_inv c c' hash payload h = elim (Outcome-cases (from_session_payload payload)) [
    | inr failed ↦ absurd (ground arith)
    | inl (p, decoded) ↦ elim (Outcome-cases (validate_valset p)) [
      | inr failed ↦ absurd (ground arith)
      | inl (tt, passed) ↦ (
        p,
        ground arith,
        decoded,
        (validate_valset-ok_iff p).0 passed,
        ground arith,
        ground arith,
        ground arith,
      )
    ]
  ]

  pub update_valset_inv :
      (payer hash : ℕ) (st st' : State)
      → update_valset crypto payer hash st ≡ ok st'
      → (c : Config) × (c' : Config) × (v : ValidatedPayload) × (s : SessionPayload) × (st.config
          ≡ some c)
        × (st.validated_payloads hash ≡ some v)
        × (st.session_payloads payer hash ≡ some s)
        × (v.latest_epoch ≡ c.current_epoch)
        × (next_valset crypto c hash s.payload ≡ ok c')
        × (st' ≡ record st {
          config = some c';
          session_payloads = put_session_payload payer hash none st.session_payloads;
        })
  unfolding update_valset
  update_valset_inv payer hash st st' h = elim (Option-cases st.config) [
    | inl e ↦ absurd (ground arith)
    | inr (c, e) ↦ elim (Option-cases (st.validated_payloads hash)) [
      | inl e' ↦ absurd (ground arith)
      | inr (v, e') ↦ elim (Option-cases (st.session_payloads payer hash)) [
        | inl e'' ↦ absurd (ground arith)
        | inr (s, e'') ↦ elim (Outcome-cases (next_valset crypto c hash s.payload)) [
          | inr failed ↦ absurd (ground arith)
          | inl (c', next) ↦ (c, c', v, s, e, e', e'', ground arith, next, ground arith)
        ]
      ]
    ]
  ]

pub initialize_inv :
    (u : Option ℕ) (deployer admin : ℕ) (st st' : State)
    → initialize u deployer admin st ≡ ok st'
    → (st.config ≡ none)
      × (st' ≡ record st {
        config = some (record {
          admin = admin;
          pending_admin = 0;
          current_epoch = 0;
          current_validators = [];
          current_weights = [];
          current_weight_threshold = 0;
          current_height = 0;
        });
      })
unfolding initialize
initialize_inv u deployer admin st st' h = ground arith

pub transfer_ownership_inv :
    (payer new_admin : ℕ) (st st' : State)
    → transfer_ownership payer new_admin st ≡ ok st'
    → (c : Config) × (st.config ≡ some c)
      × (payer ≡ c.admin)
      × (st' ≡ record st { config = some (record c { pending_admin = new_admin }) })
unfolding transfer_ownership
transfer_ownership_inv payer new_admin st st' h = elim (Option-cases st.config) [
  | inl e ↦ absurd (ground arith)
  | inr (c, e) ↦ (c, e, ground arith, ground arith)
]

pub accept_ownership_inv :
    (payer : ℕ) (st st' : State)
    → accept_ownership payer st ≡ ok st'
    → (c : Config) × (st.config ≡ some c)
      × (payer ≡ c.pending_admin)
      × (st' ≡ record st { config = some (record c { admin = payer; pending_admin = 0 }) })
unfolding accept_ownership
accept_ownership_inv payer st st' h = elim (Option-cases st.config) [
  | inl e ↦ absurd (ground arith)
  | inr (c, e) ↦ (c, e, ground arith, ground arith)
]

pub initialize_config_with_valset_inv :
    (c c' : Config) (payload : List ℕ)
    → initialize_config_with_valset c payload ≡ ok c'
    → (p : UpdateValSetPayload) × (c.current_epoch ≡ 0)
      × IsValset p.validators p.weights p.weight_threshold p.epoch
      × (c' ≡ with_valset c p)
unfolding initialize_config_with_valset
initialize_config_with_valset_inv c c' payload h =
    elim (Outcome-cases (from_session_payload payload)) [
      | inr failed ↦ absurd (ground arith)
      | inl (p, decoded) ↦ elim (Outcome-cases (validate_valset p)) [
        | inr failed ↦ absurd (ground arith)
        | inl (tt, passed) ↦ (p, ground arith, (validate_valset-ok_iff p).0 passed, ground arith)
      ]
    ]

pub set_initial_valset_inv :
    (admin : ℕ) (payload : List ℕ) (st st' : State)
    → set_initial_valset admin payload st ≡ ok st'
    → (c : Config) × (c' : Config) × (st.config ≡ some c)
      × (admin ≡ c.admin)
      × (initialize_config_with_valset c payload ≡ ok c')
      × (st' ≡ record st { config = some c' })
unfolding set_initial_valset
set_initial_valset_inv admin payload st st' h = elim (Option-cases st.config) [
  | inl e ↦ absurd (ground arith)
  | inr (c, e) ↦ elim (Outcome-cases (initialize_config_with_valset c payload)) [
    | inr failed ↦ absurd (ground arith)
    | inl (c', set) ↦ (c, c', e, ground arith, set, ground arith)
  ]
]

pub set_initial_valset_from_session_inv :
    (admin hash : ℕ) (st st' : State)
    → set_initial_valset_from_session admin hash st ≡ ok st'
    → (c : Config) × (c' : Config) × (s : SessionPayload) × (st.config ≡ some c)
      × (admin ≡ c.admin)
      × (initialize_config_with_valset c s.payload ≡ ok c')
      × (st' ≡ record st {
        config = some c';
        session_payloads = put_session_payload admin hash none st.session_payloads;
      })
unfolding set_initial_valset_from_session
set_initial_valset_from_session_inv admin hash st st' h = elim (Option-cases st.config) [
  | inl e ↦ absurd (ground arith)
  | inr (c, e) ↦ elim (Option-cases (st.session_payloads admin hash)) [
    | inl e' ↦ absurd (ground arith)
    | inr (s, e') ↦ elim (Outcome-cases (initialize_config_with_valset c s.payload)) [
      | inr failed ↦ absurd (ground arith)
      | inl (c', set) ↦ (c, c', s, e, ground arith, set, ground arith)
    ]
  ]
]

-- Posting a chunk touches the one payload account alone.
pub post_session_payload_inv :
    (payer hash : ℕ) (chunk : List ℕ) (len : ℕ) (st st' : State)
    → post_session_payload payer hash chunk len st ≡ ok st'
    → (s : SessionPayload) × (s.allocated ≡ len)
      × (length s.payload ≤ len)
      × (st' ≡ record st {
        session_payloads = put_session_payload payer hash (some s) st.session_payloads;
      })
unfolding post_session_payload
post_session_payload_inv payer hash chunk len st st' h =
    elim (Option-cases (st.session_payloads payer hash)) [
      | inl e ↦ (record { payload = chunk; allocated = len }, refl, ground arith, ground arith)
      | inr (s, e) ↦ (
        record { payload = s.payload ++ chunk; allocated = len },
        refl,
        ground arith,
        ground arith,
      )
    ]

-- ===== src/BasculeGmp/Program/Reports.antt =====
-- What stands behind the account of a mint, whatever instructions were run.
use sol_svm_contracts.Base.{
  ℕ, ◌<◌, ◌≡◌, sym, true, false, List, Option, some, ◌⊎◌, inl, inr, ok, arith, ◌∙◌, Bool-cases,
  Option-cases, ap, ◌==◌, ==_iff,
}
use sol_svm_contracts.BasculeGmp.State.{
  MintMessage, MintProof, Config, unreported, reported, minted, MintPayload, AccountRole,
  mint_reporter, mint_validator, has_role, State, no_accounts, put, Runtime, mint_id, Instruction,
}
use sol_svm_contracts.BasculeGmp.Program.{exec, recover}
use sol_svm_contracts.BasculeGmp.Program.Inversion.{
  state_of, report_mint_inv, validate_mint_inv, quiet, reports, validates, exec-Effect,
}
use sol_svm_contracts.BasculeGmp.Program.Mints.{Leads, start, step}

-- What a map holds after a write: what was written, or what it held before.
put-eq-some :
    (k written : ℕ) (q p : MintPayload) (f : ℕ → Option MintPayload)
    → put written (some q) f k ≡ some p
    → ((k ≡ written) × (p ≡ q)) ⊎ (f k ≡ some p)
put-eq-some k written q p f h = elim (Bool-cases (k == written)) [
  | inl eq ↦ inl ((==_iff k written).0 eq, ground (arith, eq))
  | inr ne ↦ inr (ground (arith, ne))
]

module _ (runtime : Runtime) where
  -- A reporter may report the message: the program is not paused, the message is for its chain, and
  -- the proof is of the trusted signer.
  pub record MayReport (reporter : ℕ) (m : MintMessage) (proof : MintProof) (st : State)
      : Type 0 where
    pub config : Config
    pub is_config : st.config ≡ some config
    pub is_open : config.paused ≡ false
    pub roles : List AccountRole
    pub is_roles : st.account_roles reporter ≡ some roles
    pub is_reporter : has_role mint_reporter roles ≡ true
    pub is_here : m.chain_id ≡ runtime.expected_chain_id
    pub is_signed : recover runtime m proof ≡ ok config.trusted_signer

  -- The trace has a report of the mint by one who may.
  pub data ReportedIn (mint : ℕ) (from : State)
      : (st : State) → Leads runtime from st → Type 0 where
    now :
        {st st' : State} (signer : ℕ) (m : MintMessage) (proof : MintProof) (i : Instruction)
        (r : Leads runtime from st) (h : exec runtime signer i st ≡ ok st')
        → i ≡ Instruction.report_mint m proof
        → mint_id runtime m ≡ mint
        → MayReport signer m proof st
        → ReportedIn mint from st' (step signer i r h)
    before :
        {st st' : State} (signer : ℕ) (i : Instruction) (r : Leads runtime from st)
        (h : exec runtime signer i st ≡ ok st')
        → ReportedIn mint from st r
        → ReportedIn mint from st' (step signer i r h)

  -- The trace has a validation of the mint, of that amount, by a validator, when the program was not
  -- paused and the mint was reported earlier in the trace or its amount was below the threshold.
  pub data MintedIn (mint amount : ℕ) (from : State)
      : (st : State) → Leads runtime from st → Type 0 where
    now :
        {st st' : State} (signer : ℕ) (m : MintMessage) (i : Instruction)
        (r : Leads runtime from st) (h : exec runtime signer i st ≡ ok st')
        → i ≡ Instruction.validate_mint m
        → mint_id runtime m ≡ mint
        → m.amount ≡ amount
        → (c : Config) → st.config ≡ some c
        → c.paused ≡ false
        → (roles : List AccountRole) → st.account_roles signer ≡ some roles
        → has_role mint_validator roles ≡ true
        → ReportedIn mint from st r ⊎ (amount < c.validate_threshold)
        → MintedIn mint amount from st' (step signer i r h)
    before :
        {st st' : State} (signer : ℕ) (i : Instruction) (r : Leads runtime from st)
        (h : exec runtime signer i st ≡ ok st')
        → MintedIn mint amount from st r
        → MintedIn mint amount from st' (step signer i r h)

  -- What a mint's account stands for.
  pub data Justified (mint : ℕ) {from st : State} (r : Leads runtime from st) (p : MintPayload)
      : Type 0 where
    is_reported : p.state ≡ reported → ReportedIn mint from st r → Justified mint r p
    is_minted : p.state ≡ minted → MintedIn mint p.amount from st r → Justified mint r p

  later :
      {from st st' : State} (mint signer : ℕ) (i : Instruction) (r : Leads runtime from st)
      (h : exec runtime signer i st ≡ ok st') (p : MintPayload)
      → Justified mint r p
      → Justified mint (step signer i r h) p
  later mint signer i r h p (is_reported s w) = is_reported s (ReportedIn.before signer i r h w)
  later mint signer i r h p (is_minted s w) = is_minted s (MintedIn.before signer i r h w)

  -- A mint whose account is reported was reported.
  reported-ReportedIn :
      {from st : State} (mint : ℕ) (r : Leads runtime from st)
      → ((p : MintPayload) → st.mint_payloads mint ≡ some p → Justified mint r p)
      → state_of (st.mint_payloads mint) ≡ reported
      → ReportedIn mint from st r
  reported-ReportedIn {from} {st} mint r earlier is = elim (Option-cases (st.mint_payloads mint)) [
    | inl e ↦ absurd (unreported-reported (sym (ap state_of e) ∙ is))
    | inr (p, e) ↦ elim (earlier p e) [
      | is_reported _ w ↦ w
      | is_minted s _ ↦ absurd (reported-minted (sym is ∙ ap state_of e ∙ s))
    ]
  ]
    where
      unreported-reported : unreported ≡ reported → ⊥
      unreported-reported e = cc e

      reported-minted : reported ≡ minted → ⊥
      reported-minted e = cc e

  -- Whatever instructions run, the account of a mint is reported or minted. If it is reported, a
  -- reporter reported that mint on this chain, with a proof of the signer that was trusted then. If
  -- it is minted, a validator validated it with the amount that the account holds, and it was
  -- reported so before or that amount was below the threshold of that moment. The program was not
  -- paused at any of these.
  pub mint_payloads-Justified :
      {st : State} (mint : ℕ) (trace : Leads runtime no_accounts st) (p : MintPayload)
      → st.mint_payloads mint ≡ some p
      → Justified mint trace p
  mint_payloads-Justified mint start p is = absurd (cc is)
  mint_payloads-Justified mint (step {st} {st'} signer i r h) p is =
      elim (exec-Effect runtime signer i st st' h) [
        | quiet _ same ↦
            later mint signer i r h p
              (mint_payloads-Justified mint r p (sym (ap (λ f. f mint) same) ∙ is))
        | reports m proof eq went ↦
            let (c, roles, e, e₁, role, running, here, signed, _, next) =
              report_mint_inv runtime signer m proof st st' went in
            elim (put-eq-some mint (mint_id runtime m) _ p st.mint_payloads
              (sym (ap (λ s. s.mint_payloads mint) next) ∙ is)) [
                | inr kept ↦ later mint signer i r h p (mint_payloads-Justified mint r p kept)
                | inl (same, written) ↦ is_reported (ap (λ q. q.state) written) (
                    ReportedIn.now signer m proof i r h eq (sym same) (record {
                      config = c;
                      is_config = e;
                      is_open = running;
                      roles = roles;
                      is_roles = e₁;
                      is_reporter = role;
                      is_here = here;
                      is_signed = signed;
                    }))
              ]
        | validates m eq went ↦
            let (c, roles, e, e₁, role, running, allowed, next) =
              validate_mint_inv runtime signer m st st' went in
            elim (put-eq-some mint (mint_id runtime m) _ p st.mint_payloads
              (sym (ap (λ s. s.mint_payloads mint) next) ∙ is)) [
                | inr kept ↦ later mint signer i r h p (mint_payloads-Justified mint r p kept)
                | inl (same, written) ↦ is_minted (ap (λ q. q.state) written) (
                    MintedIn.now signer m i r h eq (sym same) (sym (ap (λ q. q.amount) written)) c e
                      running roles e₁ role
                      (elim allowed [
                        | inl was ↦ inl (
                            reported-ReportedIn mint r (mint_payloads-Justified mint r)
                              (ap (λ k. state_of (st.mint_payloads k)) same ∙ was))
                        | inr (_, below) ↦ inr (omega (arith, below, ap (λ q. q.amount) written))
                      ]))
              ]
      ]

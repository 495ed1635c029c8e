-- ===== src/Engine/Answers.antt =====
-- Every answer of `proofFor`, and what it leaves unchanged.
use foreseer.Base.{
  ℕ, ◌≡◌, refl, sym, ◌∙◌, none, some, inl, inr, Option-cases, ◌==◌, nat_eq, filter, find, subst,
  get_elem?, get_elem?-map-none,
}
use foreseer.Base.Exec.{ok, err, api, Result}
use foreseer.Sdk.{Sdk, SdkLaws}
use foreseer.Db.{EpochRow, ReceiptRow, in_epoch, epoch_by_id, order_by_bet}
use foreseer.Engine.{Engine, Config, Proof, proof_for, receipt_rows, row_to_receipt}
use foreseer.Engine.Sound.{entry_of, IsSound}
use foreseer.Engine.Cache.{cached_tree_lem}
use foreseer.Engine.Proofs.{
  Leads, epoch_by_id_id, rows_at, proof_for-known, proof_for-unknown_bet, proof_for-open,
  proof_for-unknown_epoch, closed_not_open, proof_for-Leads,
}

module _ (sdk : Sdk) (config : Config) where
  -- The four answers of `proofFor`, with their conditions.
  pub data ProofAnswer (s : Engine) (i b : ℕ) : Result Proof × Engine → Type 0 where
    no_epoch :
        epoch_by_id i s.db.epochs ≡ none → ProofAnswer s i b (err (api 404 "unknown epoch"), s)
    too_early :
        (e : EpochRow)
        → epoch_by_id i s.db.epochs ≡ some e
        → e.closed_at ≡ none
        → ProofAnswer s i b (err (api 409 "epoch still open, proofs exist after close"), s)
    no_bet :
        {s' : Engine} (e : EpochRow) (t : ℕ)
        → epoch_by_id i s.db.epochs ≡ some e
        → e.closed_at ≡ some t
        → find (λ q. q.bet_id == b) (receipt_rows i none s.db) ≡ none
        → s'.db ≡ s.db
        → ProofAnswer s i b (err (api 404 "unknown betId"), s')
    served :
        {s' : Engine} (e : EpochRow) (t : ℕ) (row : ReceiptRow) (p : Proof)
        → epoch_by_id i s.db.epochs ≡ some e
        → e.closed_at ≡ some t
        → find (λ q. q.bet_id == b) (receipt_rows i none s.db) ≡ some row
        → Leads sdk config
            (sdk.receipt_digest (row_to_receipt sdk row e.seed_commit) config.domain)
            p
        → s'.db ≡ s.db
        → ProofAnswer s i b (ok p, s')

  proof_for-missing :
      (s : Engine) (e : EpochRow) (i b t : ℕ)
      → IsSound sdk config s
      → epoch_by_id i s.db.epochs ≡ some e
      → e.closed_at ≡ some t
      → find (λ q. q.bet_id == b) (receipt_rows i none s.db) ≡ none
      → (s' : Engine) × (proof_for sdk config i b s ≡ (err (api 404 "unknown betId"), s'))
        × (s'.db ≡ s.db)
  unfolding receipt_rows
  proof_for-missing s e i b t v f c r =
      let rs = s.db.receipts in
      let id = epoch_by_id_id i s.db.epochs e f in
      let entry = entry_of sdk config rs e in
      let (s', cached, same, v') =
        cached_tree_lem sdk config s e (subst (λ j. epoch_by_id j s.db.epochs ≡ some e) (sym id) f)
          (closed_not_open sdk config e t c) v in
      let place : get_elem? (order_by_bet (filter (in_epoch e.epoch_id) rs)) b ≡ none =
        subst (λ j. get_elem? (order_by_bet (filter (in_epoch j) rs)) b ≡ none) (sym id)
          (sym (rows_at i b rs v.numbered) ∙ r) in
      (
        s',
        proof_for-unknown_bet sdk config s s' e i b t entry f c cached (
            get_elem?-map-none
              (λ q. sdk.receipt_digest (row_to_receipt sdk q e.seed_commit) config.domain)
              (order_by_bet (filter (in_epoch e.epoch_id) rs)) b place),
        same,
      )

  -- On a sound engine, `proofFor` refuses an epoch that it does not know, one that is still open,
  -- and a bet that has no receipt; otherwise it serves a proof that leads from the receipt's
  -- digest to the anchored root. The tables stay as they are.
  pub proof_for_answers :
      (s : Engine) (i b : ℕ)
      → SdkLaws sdk
      → IsSound sdk config s
      → ProofAnswer s i b (proof_for sdk config i b s)
  proof_for_answers s i b laws v = elim (Option-cases (epoch_by_id i s.db.epochs)) [
    | inl f ↦ rw (proof_for-unknown_epoch sdk config s i b f) (no_epoch f)
    | inr (e, f) ↦ elim (Option-cases e.closed_at) [
      | inl c ↦ rw (proof_for-open sdk config s e i b f c) (too_early e f c)
      | inr (t, c) ↦ elim (Option-cases (find (λ q. q.bet_id == b) (receipt_rows i none s.db))) [
        | inl r ↦
            let (s', q, same) = proof_for-missing s e i b t v f c r in rw q (no_bet e t f c r same)
        | inr (row, r) ↦
            let (p, s', q, leads, same, v') =
              proof_for-Leads sdk config s e row i b t laws v f c r in
            rw q (served e t row p f c r leads same)
      ]
    ]
  ]

  pub proof_for-IsSound :
      (s : Engine) (i b : ℕ)
      → IsSound sdk config s
      → IsSound sdk config (proof_for sdk config i b s).1
  proof_for-IsSound s i b v = elim (Option-cases (epoch_by_id i s.db.epochs)) [
    | inl f ↦ rw (proof_for-unknown_epoch sdk config s i b f) v
    | inr (e, f) ↦ elim (Option-cases e.closed_at) [
      | inl c ↦ rw (proof_for-open sdk config s e i b f c) v
      | inr (t, c) ↦
          let id = epoch_by_id_id i s.db.epochs e f in
          let entry = entry_of sdk config s.db.receipts e in
          let (s', cached, same, v') =
            cached_tree_lem sdk config s e
              (subst (λ j. epoch_by_id j s.db.epochs ≡ some e) (sym id) f)
              (closed_not_open sdk config e t c) v in
          elim (Option-cases (get_elem? entry.digests b)) [
            | inl d ↦ rw (proof_for-unknown_bet sdk config s s' e i b t entry f c cached d) v'
            | inr (digest, d) ↦
                rw (proof_for-known sdk config s s' e i b t entry digest f c cached d) v'
          ]
    ]
  ]

  pub proof_for-same :
      (s : Engine) (i b : ℕ) → IsSound sdk config s → (proof_for sdk config i b s).1.db ≡ s.db
  proof_for-same s i b v = elim (Option-cases (epoch_by_id i s.db.epochs)) [
    | inl f ↦ rw (proof_for-unknown_epoch sdk config s i b f) refl
    | inr (e, f) ↦ elim (Option-cases e.closed_at) [
      | inl c ↦ rw (proof_for-open sdk config s e i b f c) refl
      | inr (t, c) ↦
          let id = epoch_by_id_id i s.db.epochs e f in
          let entry = entry_of sdk config s.db.receipts e in
          let (s', cached, same, v') =
            cached_tree_lem sdk config s e
              (subst (λ j. epoch_by_id j s.db.epochs ≡ some e) (sym id) f)
              (closed_not_open sdk config e t c) v in
          elim (Option-cases (get_elem? entry.digests b)) [
            | inl d ↦ rw (proof_for-unknown_bet sdk config s s' e i b t entry f c cached d) same
            | inr (digest, d) ↦
                rw (proof_for-known sdk config s s' e i b t entry digest f c cached d) same
          ]
    ]
  ]

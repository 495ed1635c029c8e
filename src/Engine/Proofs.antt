-- ===== src/Engine/Proofs.antt =====
-- `proofFor`: every answer, and the proof of a stored receipt leads to the anchored root.
pub mod Root
use foreseer.Base.{
  ℕ, ◌≡◌, refl, sym, ◌∙◌, ap, String, true, false, none, some, List, [], ◌∷◌, arith, ◌==◌, nat_eq,
  filter, find, subst, get_elem?, get_elem?-map, map,
}
use foreseer.Base.Exec.{ok, err, api}
use foreseer.Sdk.{Bytes, Sdk, SdkLaws}
use foreseer.Db.{EpochRow, ReceiptRow, is_open, in_epoch, epoch_by_id, order_by_bet}
use foreseer.Db.Receipts.{
  ReceiptsAreNumbered, oldest_first, order_by_bet-oldest_first, oldest_first-AreConsecutive,
  find-AreConsecutive,
}
use foreseer.Engine.{
  Engine, Config, CacheEntry, Proof, cached_tree, proof_for, receipt_rows, row_to_receipt,
}
use foreseer.Engine.Sound.{entry_of, IsSound, SealedAt, EpochsAreSealed}
use foreseer.Engine.Cache.{cached_tree_lem}

pub epoch_by_id_id :
    (i : ℕ) (es : List EpochRow) (e : EpochRow) → epoch_by_id i es ≡ some e → e.epoch_id ≡ i
unfolding epoch_by_id
epoch_by_id_id i [] e h = ground arith
epoch_by_id_id i (f ∷ es) e h = ground (arith, epoch_by_id_id i es e)

-- The row that the server finds by a bet id stands at that place.
pub rows_at :
    (i b : ℕ) (rs : List ReceiptRow)
    → ReceiptsAreNumbered rs
    → find (λ q. q.bet_id == b) (order_by_bet (filter (in_epoch i) rs))
      ≡ get_elem? (order_by_bet (filter (in_epoch i) rs)) b
rows_at i b rs h =
    let q = order_by_bet-oldest_first i rs h in
    ap (find (λ q. q.bet_id == b)) q
    ∙ find-AreConsecutive i 0 b b (oldest_first i rs) (oldest_first-AreConsecutive i rs h)
        (omega arith)
    ∙ ap (λ rows. get_elem? rows b) (sym q)

module _ (sdk : Sdk) (config : Config) where
  pub EpochsAreSealed-found :
      (rs : List ReceiptRow) (i : ℕ) (es : List EpochRow) (e : EpochRow)
      → epoch_by_id i es ≡ some e
      → EpochsAreSealed sdk config rs es
      → SealedAt sdk config rs e e.closed_at
  unfolding epoch_by_id
  EpochsAreSealed-found rs i [] e h s = absurd (ground arith)
  EpochsAreSealed-found rs i (f ∷ es) e h s = ground (arith, EpochsAreSealed-found rs i es e)

  to_bytes-to_hex : (bs : List Bytes) → SdkLaws sdk → map sdk.to_bytes (map sdk.to_hex bs) ≡ bs
  to_bytes-to_hex [] laws = refl
  to_bytes-to_hex (b ∷ bs) laws = ground (arith, laws.bytes_of_hex b, to_bytes-to_hex bs laws)

  unfoldable pub proof_of : EpochRow → CacheEntry → ℕ → Bytes → Proof
  proof_of e entry b digest = record {
    digest = sdk.to_hex digest;
    proof = map sdk.to_hex (sdk.merkle_proof entry.tree b);
    merkle_root = e.merkle_root;
  }

  pub proof_for-known :
      (s s' : Engine) (e : EpochRow) (i b t : ℕ) (entry : CacheEntry) (digest : Bytes)
      → epoch_by_id i s.db.epochs ≡ some e
      → e.closed_at ≡ some t
      → cached_tree sdk config e s ≡ (ok entry, s')
      → get_elem? entry.digests b ≡ some digest
      → proof_for sdk config i b s ≡ (ok (proof_of e entry b digest), s')
  unfolding proof_for proof_of
  proof_for-known s s' e i b t entry digest f c q d = ground arith

  pub proof_for-unknown_bet :
      (s s' : Engine) (e : EpochRow) (i b t : ℕ) (entry : CacheEntry)
      → epoch_by_id i s.db.epochs ≡ some e
      → e.closed_at ≡ some t
      → cached_tree sdk config e s ≡ (ok entry, s')
      → get_elem? entry.digests b ≡ none
      → proof_for sdk config i b s ≡ (err (api 404 "unknown betId"), s')
  unfolding proof_for
  proof_for-unknown_bet s s' e i b t entry f c q d = ground arith

  pub proof_for-open :
      (s : Engine) (e : EpochRow) (i b : ℕ)
      → epoch_by_id i s.db.epochs ≡ some e
      → e.closed_at ≡ none
      → proof_for sdk config i b s ≡ (err (api 409 "epoch still open, proofs exist after close"), s)
  unfolding proof_for
  proof_for-open s e i b f c = ground arith

  pub proof_for-unknown_epoch :
      (s : Engine) (i b : ℕ)
      → epoch_by_id i s.db.epochs ≡ none
      → proof_for sdk config i b s ≡ (err (api 404 "unknown epoch"), s)
  unfolding proof_for
  proof_for-unknown_epoch s i b f = ground arith

  -- A proof that the checks accept: it leads from the digest to the root that the epoch anchors.
  pub record Leads (digest : Bytes) (p : Proof) : Type 0 where
    pub root : String
    pub anchored : p.merkle_root ≡ some root
    pub accepted :
        sdk.verify_merkle_proof digest (map sdk.to_bytes p.proof) (sdk.to_bytes root) ≡ true

  proof_of-Leads :
      (e : EpochRow) (entry : CacheEntry) (b : ℕ) (digest : Bytes)
      → SdkLaws sdk
      → e.merkle_root ≡ some (sdk.to_hex (sdk.merkle_root entry.tree))
      → get_elem? entry.tree.leaves b ≡ some digest
      → Leads digest (proof_of e entry b digest)
  unfolding proof_of
  proof_of-Leads e entry b digest laws anchored leaf = record {
    root = sdk.to_hex (sdk.merkle_root entry.tree);
    anchored = anchored;
    accepted =
        rw
          (
            laws.bytes_of_hex (sdk.merkle_root entry.tree),
            to_bytes-to_hex (sdk.merkle_proof entry.tree b) laws,
          )
          (laws.proof_of_leaf entry.tree b digest leaf);
  }

  pub closed_not_open : (e : EpochRow) (t : ℕ) → e.closed_at ≡ some t → is_open e ≡ false
  closed_not_open e t c = ground arith

  -- In a closed epoch of a sound engine, the proof of a stored receipt is served, and leads from its
  -- digest to the anchored root.
  pub proof_for-Leads :
      (s : Engine) (e : EpochRow) (row : ReceiptRow) (i b t : ℕ)
      → SdkLaws sdk
      → IsSound sdk config s
      → epoch_by_id i s.db.epochs ≡ some e
      → e.closed_at ≡ some t
      → find (λ q. q.bet_id == b) (receipt_rows i none s.db) ≡ some row
      → (p : Proof) × (s' : Engine) × (proof_for sdk config i b s ≡ (ok p, s'))
        × Leads (sdk.receipt_digest (row_to_receipt sdk row e.seed_commit) config.domain) p
        × (s'.db ≡ s.db)
        × IsSound sdk config s'
  unfolding receipt_rows
  proof_for-Leads s e row i b t laws v f c r =
      let rs = s.db.receipts in
      let id = epoch_by_id_id i s.db.epochs e f in
      let entry = entry_of sdk config rs e in
      let digest = sdk.receipt_digest (row_to_receipt sdk row e.seed_commit) config.domain in
      let (s', cached, same, v') =
        cached_tree_lem sdk config s e (subst (λ j. epoch_by_id j s.db.epochs ≡ some e) (sym id) f)
          (closed_not_open e t c) v in
      let place : get_elem? (order_by_bet (filter (in_epoch e.epoch_id) rs)) b ≡ some row =
        subst (λ j. get_elem? (order_by_bet (filter (in_epoch j) rs)) b ≡ some row) (sym id)
          (sym (rows_at i b rs v.numbered) ∙ r) in
      let leaf =
        get_elem?-map (λ q. sdk.receipt_digest (row_to_receipt sdk q e.seed_commit) config.domain)
          (order_by_bet (filter (in_epoch e.epoch_id) rs)) b row place in
      let sealed =
        subst (SealedAt sdk config rs e) c (EpochsAreSealed-found rs i s.db.epochs e f v.sealed) in
      (
        proof_of e entry b digest,
        s',
        proof_for-known s s' e i b t entry digest f c cached leaf,
        proof_of-Leads e entry b digest laws sealed.0 leaf,
        same,
        v',
      )

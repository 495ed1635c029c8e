-- ===== src/Api/Pages/Secret.antt =====
-- What a page of an epoch reveals, and how long a page of receipts is.
use foreseer.Base.{
  ℕ, zero, suc, ◌≤◌, ◌≡◌, String, true, Option, none, some, List, [], ◌∷◌, arith, Option-cases, inl,
  inr, take, drop, length, length-map,
}
use foreseer.Base.Exec.{Result-cases, ok}
use foreseer.Json.{Value}
use foreseer.Sdk.{Sdk, SdkLaws}
use foreseer.Db.{Db, EpochRow, epoch_by_id}
use foreseer.Engine.{Engine, Config, receipt_page, receipt_rows, row_to_receipt}
use foreseer.Engine.Sound.{IsSound}
use foreseer.Api.Verify.Stored.{EpochsAreCommitted-found}
use foreseer.Api.Params.{int_param, int_query, max_safe_integer}
use foreseer.Api.Params.Bounds.{int_query-le}
use foreseer.Api.Pages.{
  EpochJson, epoch_json, ReceiptsPage, by_id, page_of, receipts, seed_query, receipt_json,
}

-- The seed is shown exactly if the epoch is closed, and then it is the one that was committed to.
pub data Reveals (sdk : Sdk) : EpochJson → Type 0 where
  hidden : {page : EpochJson} → page.closed_at ≡ none → page.server_seed ≡ none → Reveals sdk page
  shown :
      {page : EpochJson} (t : ℕ) (seed : String)
      → page.closed_at ≡ some t
      → page.server_seed ≡ some seed
      → sdk.verify_commit seed page.seed_commit ≡ true
      → Reveals sdk page

module _ (sdk : Sdk) (config : Config) (s : Engine) where
  by_id-found :
      (id : String) (page : EpochJson) (s' : Engine)
      → by_id sdk config id s ≡ (ok page, s')
      → (i : ℕ) × (e : EpochRow) × (epoch_by_id i s.db.epochs ≡ some e) × (page ≡ epoch_json sdk e)
  unfolding by_id
  by_id-found id page s' h = elim (Result-cases (int_param id)) [
    | inl (e, q) ↦ absurd (ground arith)
    | inr (i, q) ↦ elim (Option-cases (epoch_by_id i s.db.epochs)) [
      | inl f ↦ absurd (ground arith)
      | inr (e, f) ↦ (i, e, f, ground arith)
    ]
  ]

  epoch_json-Reveals :
      (e : EpochRow)
      → sdk.verify_commit e.server_seed e.seed_commit ≡ true
      → Reveals sdk (epoch_json sdk e)
  unfolding epoch_json
  epoch_json-Reveals e c = elim (Option-cases e.closed_at) [
    | inl q ↦ hidden q (ground arith)
    | inr (t, q) ↦ shown t e.server_seed q (ground arith) c
  ]

  -- In a sound engine the page of an epoch hides the server seed while the epoch is open, and once
  -- it is closed shows a seed that the commitment on the page verifies.
  pub by_id-Reveals :
      (id : String) (page : EpochJson) (s' : Engine)
      → SdkLaws sdk
      → IsSound sdk config s
      → by_id sdk config id s ≡ (ok page, s')
      → Reveals sdk page
  by_id-Reveals id page s' laws v h =
      let (i, e, f, same) = by_id-found id page s' h in
      let made = EpochsAreCommitted-found sdk config i s.db.epochs e f v.committed in
      rw same (epoch_json-Reveals e (rw (made.hex, made.commit) (laws.commit_of_seed made.seed)))

length-take-le : {A : Type 0} (n : ℕ) (xs : List A) → length (take n xs) ≤ n
length-take-le zero xs = omega arith
length-take-le (suc n) [] = omega arith
length-take-le (suc n) (x ∷ xs) = ground (arith, length-take-le n xs)

receipt_page-le :
    (i : ℕ) (o : Option String) (limit offset : ℕ) (db : Db)
    → length (receipt_page i o limit offset db).0 ≤ limit
unfolding receipt_page
receipt_page-le i none limit offset db = length-take-le limit (drop offset (receipt_rows i none db))
receipt_page-le i (some seed) limit offset db =
    length-take-le limit (drop offset (receipt_rows i (some seed) db))

-- A page of receipts has as many as its limit at most, the limit is 1 to 1000, and nothing is
-- written.
pub receipts-le :
    (sdk : Sdk) (config : Config) (id : String) (client_seed limit offset : Value) (s s' : Engine)
    (page : ReceiptsPage)
    → receipts sdk config id client_seed limit offset s ≡ (ok page, s')
    → (length page.receipts ≤ page.limit) × (1 ≤ page.limit) × (page.limit ≤ 1000) × (s' ≡ s)
unfolding receipts
receipts-le sdk config id client_seed limit offset s s' page h =
    elim (Result-cases (int_param id)) [
      | inl (e, q) ↦ absurd (ground arith)
      | inr (i, q) ↦ elim (Option-cases (epoch_by_id i s.db.epochs)) [
        | inl f ↦ absurd (ground arith)
        | inr (e, f) ↦ elim (Result-cases (int_query limit 100 1 1000 "limit must be 1..1000")) [
          | inl (x, l) ↦ absurd (ground arith)
          | inr (size, l) ↦
              elim (Result-cases (int_query offset 0 0 max_safe_integer "offset must be >= 0")) [
                | inl (x, o) ↦ absurd (ground arith)
                | inr (start, o) ↦
                    let shown = receipt_page i (seed_query client_seed) size start s.db in
                    let bounds =
                      int_query-le limit 100 1 1000 "limit must be 1..1000" size (omega arith)
                        (omega arith) l in
                    let same : page ≡ page_of sdk config i e size start shown = ground arith in
                    let rows = receipt_page-le i (seed_query client_seed) size start s.db in
                    rw same (
                      rw
                          (length-map
                            (λ row.
                              receipt_json (row_to_receipt sdk row e.seed_commit) row.signature)
                            shown.0)
                          rows,
                      bounds.0,
                      bounds.1,
                      ground arith,
                    )
              ]
        ]
      ]
    ]

-- ===== src/Web/DemoTee.antt =====
-- web/lib/demo-tee.ts: the engine of the demo pages, on the package's ReferenceTee, which is a
-- parameter with its own state. The texts of the check rows are left out.
pub mod Steps
use foreseer.Base.{
  ℕ, suc, ◌+◌, String, Bool, true, false, ◌&&◌, not, Option, none, some, List, [], ◌∷◌, ◌++◌, map,
  every, length, get_elem?, leb, ◌==◌, nat_eq, if◌then◌else◌,
}
use foreseer.Base.Exec.{
  Error, thrown, Result, ok, err, Exec, pure, gets, modify, guard, ◌>>=◌, ◌>>◌,
}
use foreseer.Json.{Value}
use foreseer.Sdk.{Bytes, Domain, Receipt, SignedReceipt, Sdk}

pub record TeeClosed : Type 0 where
  pub server_seed : String
  pub merkle_root : String
  pub receipt_count : ℕ

-- What the demo uses of foreseer-sdk/reference and foreseer-sdk/verify, beside the record Sdk.
pub record ReferenceTee (T : Type 0) : Type 0 where
  pub tee_id : String
  pub domain : Domain
  pub open_epoch : Exec T (ℕ × String)
  pub play : String → Value → Exec T SignedReceipt
  pub close_epoch : Exec T TeeClosed
  pub verify_receipt_signature : SignedReceipt → Bool
  pub merkle_proof : List Bytes → ℕ → List Bytes

pub record DemoConfig : Type 0 where
  pub rule : Value
  pub max_plays : ℕ

pub record PlayRecord : Type 0 where
  pub epoch_id : ℕ
  pub bet_id : ℕ
  pub nonce : ℕ
  pub draw : Option ℕ
  pub win : Bool
  pub payout_bp : ℕ
  pub rule_hash : String
  pub signature : String
  pub signature_ok : Bool

pub record DemoChecks : Type 0 where
  pub signature : Bool
  pub commit : Bool
  pub outcome : Bool
  pub merkle : Bool

pub record RevealView : Type 0 where
  pub server_seed : String
  pub merkle_root : String
  pub receipt_count : ℕ
  pub proof_depth : ℕ
  pub checks : DemoChecks
  pub all_green : Bool

pub record Demo (T : Type 0) : Type 0 where
  pub tee : T
  pub epoch_id : ℕ
  pub seed_commit : String
  pub plays : List PlayRecord
  pub signed : List SignedReceipt
  pub played : List Value
  pub reveal : Option RevealView
  pub is_open : Bool

-- A call of the ReferenceTee, which has its own state.
abbrev pub on_tee : {T A : Type 0} → Exec T A → Exec (Demo T) A
on_tee m s = let (r, t) = m s.tee in (r, record s { tee = t })

abbrev pub draw_of : List ℕ → Option ℕ
draw_of [] = none
draw_of (d ∷ ds) = some d

abbrev pub rule_or : Option Value → Value → Value
rule_or none rule = rule
rule_or (some r) rule = r

module _ {T : Type 0} (sdk : Sdk) (tee : ReferenceTee T) (config : DemoConfig)
    (client_seed : String) where
  abbrev pub start_epoch : Exec (Demo T) (Unit {0})
  start_epoch = do
    started ← on_tee tee.open_epoch
    modify (λ s. record s {
      epoch_id = started.0;
      seed_commit = started.1;
      plays = [];
      signed = [];
      played = [];
      reveal = none;
      is_open = true;
    })

  unfoldable pub open_demo : Exec (Demo T) (Unit {0})
  open_demo = do
    opened ← gets (λ s. s.is_open)
    elim opened [ true ↦ pure tt | false ↦ start_epoch ]

  abbrev pub record_of : SignedReceipt → Value → PlayRecord
  record_of bet rule = record {
    epoch_id = bet.receipt.epoch_id;
    bet_id = bet.receipt.bet_id;
    nonce = bet.receipt.nonce;
    draw = draw_of bet.receipt.draws;
    win = bet.receipt.win;
    payout_bp = bet.receipt.payout_bp;
    rule_hash = sdk.rule_hash rule;
    signature = bet.signature;
    signature_ok = tee.verify_receipt_signature bet;
  }

  -- `none` for the rule stands for the default of the configuration.
  unfoldable pub demo_play : Option Value → Exec (Demo T) PlayRecord
  demo_play chosen = do
    let rule = rule_or chosen config.rule
    opened ← gets (λ s. s.is_open)
    guard opened thrown
    full ← gets (λ s. leb config.max_plays (length s.plays))
    guard (not full) thrown
    bet ← on_tee (tee.play client_seed rule)
    modify (λ s. record s {
      signed = s.signed ++ bet ∷ [];
      played = s.played ++ rule ∷ [];
      plays = s.plays ++ record_of bet rule ∷ [];
    })
    pure (record_of bet rule)

  -- The loop over the leaves, from the leaf `i`: the depth of the last proof, and whether all verify.
  unfoldable pub check_leaves : List Bytes → List Bytes → ℕ → Bytes → ℕ → Bool → ℕ × Bool
  check_leaves all [] i root depth good = (depth, good)
  check_leaves all (leaf ∷ leaves) i root depth good =
      let path = tee.merkle_proof all i in
      check_leaves all leaves (suc i) root (length path)
        (if sdk.verify_merkle_proof leaf path root then good else false)

  -- The loop over the outcomes, with the rule that each was played with.
  unfoldable pub check_outcomes : List SignedReceipt → List Value → String → Bool → Bool
  check_outcomes [] rules seed good = good
  check_outcomes (s ∷ signed) [] seed good = false
  check_outcomes (s ∷ signed) (rule ∷ rules) seed good =
      check_outcomes signed rules seed
        (if sdk.verify_outcome s.receipt rule seed then good else false)

  abbrev pub view_of : TeeClosed → Demo T → RevealView
  view_of closed s =
      let leaves = map (λ x. sdk.receipt_digest x.receipt tee.domain) s.signed in
      let (depth, merkle_ok) =
        check_leaves leaves leaves 0 (sdk.to_bytes closed.merkle_root) 0 true in
      let checks : DemoChecks = record {
        signature = every (λ p. p.signature_ok) s.plays;
        commit = sdk.verify_commit closed.server_seed s.seed_commit;
        outcome = check_outcomes s.signed s.played closed.server_seed true;
        merkle = merkle_ok;
      } in
      record {
        server_seed = closed.server_seed;
        merkle_root = closed.merkle_root;
        receipt_count = closed.receipt_count;
        proof_depth = depth;
        checks = checks;
        all_green = checks.signature && checks.commit && checks.outcome && checks.merkle;
      }

  unfoldable pub demo_reveal : Exec (Demo T) RevealView
  unfolding check_leaves check_outcomes
  demo_reveal = do
    opened ← gets (λ s. s.is_open)
    guard opened thrown
    some_play ← gets (λ s. leb 1 (length s.signed))
    guard some_play thrown
    closed ← on_tee tee.close_epoch
    modify (λ s. record s { is_open = false })
    view ← gets (λ s. view_of closed s)
    modify (λ s. record s { reveal = some view })
    pure view

-- The state that `build` starts from, before its first openEpoch.
abbrev pub built : {T : Type 0} → T → Demo T
built t = record {
  tee = t;
  epoch_id = 0;
  seed_commit = "0x";
  plays = [];
  signed = [];
  played = [];
  reveal = none;
  is_open = false;
}

-- The calls of a TeeHandle; `snapshot` only reads.
pub data DemoCall : Type 0 where
  next_epoch : DemoCall
  play_once : Option Value → DemoCall
  reveal_all : DemoCall

module _ {T : Type 0} (sdk : Sdk) (tee : ReferenceTee T) (config : DemoConfig)
    (client_seed : String) where
  abbrev pub demo_step : DemoCall → Demo T → Demo T
  demo_step next_epoch s = (open_demo sdk tee config client_seed s).1
  demo_step (play_once rule) s = (demo_play sdk tee config client_seed rule s).1
  demo_step reveal_all s = (demo_reveal sdk tee config client_seed s).1

  abbrev pub demo_run : List DemoCall → Demo T → Demo T
  demo_run [] s = s
  demo_run (c ∷ cs) s = demo_run cs (demo_step c s)

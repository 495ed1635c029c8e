-- ===== src/Demo/Anchor.antt =====
-- server/scripts/anchor.mjs: commits and anchors the closed epochs of the server on a contract, which is
-- a parameter with its own state.
pub mod Once
use foreseer.Base.{
  ℕ, zero, suc, ◌+◌, ◌-◌, ◌==◌, string_eq, String, Bool, true, false, ◌≡◌, Option, none, some, List,
  [], ◌∷◌, ◌++◌, is_some,
}
use foreseer.Base.Text.{decimal, to_lower_case}
use foreseer.Base.Exec.{Result, ok, err, thrown, Exec, pure, gets, guard, or_raise, ◌>>=◌, ◌>>◌}
use foreseer.Sdk.{Sdk, Bytes}
use foreseer.Engine.{Engine, Config}
use foreseer.Api.Pages.{EpochJson, Current, by_id, current}

-- The result of `epochs(uint64)`, of which the script reads two fields.
pub record EpochRecord : Type 0 where
  pub committed : Bool
  pub anchored : Bool

-- The arguments of anchorEpoch.
pub record Anchor : Type 0 where
  pub spec_version : ℕ
  pub code_version : String
  pub epoch_id : ℕ
  pub seed_commit : String
  pub server_seed : Option String
  pub merkle_root : Option String
  pub receipt_count : Option ℕ
  pub signature : Option String

-- ForeseerInstructionSender: a transaction that is reverted throws, and changes nothing.
pub record Contract (C : Type 0) : Type 0 where
  pub tee_id : C → String
  pub epochs : C → ℕ → EpochRecord
  pub commit_epoch : ℕ → String → Exec C (Unit {0})
  pub anchor_epoch : Anchor → Exec C (Unit {0})

-- What the script relies on: an anchored epoch stays anchored, and anchorEpoch anchors its epoch.
pub record ContractLaws {C : Type 0} (contract : Contract C) : Type 0 where
  pub anchor_sets :
      (a : Anchor) (c c' : C)
      → contract.anchor_epoch a c ≡ (ok tt, c')
      → (contract.epochs c' a.epoch_id).anchored ≡ true
  pub anchor_keeps :
      (a : Anchor) (c : C) (i : ℕ)
      → (contract.epochs c i).anchored ≡ true
      → (contract.epochs (contract.anchor_epoch a c).1 i).anchored ≡ true
  pub commit_keeps :
      (j : ℕ) (seed_commit : String) (c : C) (i : ℕ)
      → (contract.epochs c i).anchored ≡ true
      → (contract.epochs (contract.commit_epoch j seed_commit c).1 i).anchored ≡ true

pub record Poster (C : Type 0) : Type 0 where
  pub server : Engine
  pub chain : C

abbrev pub on_server : {C A : Type 0} → Exec Engine A → Exec (Poster C) A
on_server m p = let (r, s) = m p.server in (r, record p { server = s })

abbrev pub on_chain : {C A : Type 0} → Exec C A → Exec (Poster C) A
on_chain m p = let (r, c) = m p.chain in (r, record p { chain = c })

module _ {C : Type 0} (sdk : Sdk) (config : Config) (contract : Contract C) where
  abbrev pub anchor_of : ℕ → EpochJson → Anchor
  anchor_of epoch_id epoch = record {
    spec_version = 1;
    code_version = epoch.code_version;
    epoch_id = epoch_id;
    seed_commit = epoch.seed_commit;
    server_seed = epoch.server_seed;
    merkle_root = epoch.merkle_root;
    receipt_count = epoch.receipt_count;
    signature = epoch.close_signature;
  }

  -- `if (!record.committed)`.
  abbrev pub commit_first : Bool → ℕ → EpochJson → Exec (Poster C) (Unit {0})
  commit_first true epoch_id epoch = pure tt
  commit_first false epoch_id epoch = on_chain (contract.commit_epoch epoch_id epoch.seed_commit)

  -- The body of the loop; the answer says whether the epoch was anchored by it.
  unfoldable pub anchor_one : ℕ → Exec (Poster C) Bool
  anchor_one epoch_id = do
    epoch ← on_server (by_id sdk config (decimal epoch_id))
    elim (is_some epoch.closed_at) [
      | false ↦ pure false
      | true ↦ do
        seen ← gets (λ p. contract.epochs p.chain epoch_id)
        elim seen.anchored [
          | true ↦ pure false
          | false ↦ do
            commit_first seen.committed epoch_id epoch
            on_chain (contract.anchor_epoch (anchor_of epoch_id epoch))
            pure true
        ]
    ]

  abbrev pub counted : Bool → ℕ → ℕ
  counted true n = suc n
  counted false n = n

  -- The loop over the targets, with the number of epochs anchored so far.
  unfoldable pub anchor_all : List ℕ → ℕ → Exec (Poster C) ℕ
  anchor_all [] n = pure n
  anchor_all (i ∷ is) n = do done ← anchor_one i; anchor_all is (counted done n)

  -- for (let id = 1; id < current.epochId; id++) targets.push(id)
  abbrev pub ids_from : ℕ → ℕ → List ℕ
  ids_from i zero = []
  ids_from i (suc n) = i ∷ ids_from (suc i) n

  -- The epochs that are named on the command line, or else every epoch before the current one.
  unfoldable pub anchor_targets : List ℕ → ℕ → Bytes → Exec (Poster C) (List ℕ)
  anchor_targets [] now fresh = do
    shown ← on_server (current sdk config now fresh)
    pure (ids_from 1 (shown.epoch_id - 1))
  anchor_targets (i ∷ is) now fresh = pure (i ∷ is)

  -- The script, which exits when the contract expects another signer.
  unfoldable pub anchor_script : List ℕ → ℕ → Bytes → Exec (Poster C) ℕ
  unfolding anchor_targets anchor_all
  anchor_script args now fresh = do
    expected ← gets (λ p. contract.tee_id p.chain)
    guard (to_lower_case expected == to_lower_case config.tee_id) thrown
    targets ← anchor_targets args now fresh
    anchor_all targets 0

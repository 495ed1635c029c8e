-- ===== src/Demo/Anchor/Once.antt =====
-- A run of the anchor script anchors every closed target, and another run has nothing left to do.
use foreseer.Base.{ℕ, ◌≡◌, Bool, true, some, List, [], ◌∷◌, is_some}
use foreseer.Base.Exec.{Exec, pure, ◌>>◌}
use foreseer.Sdk.{Sdk}
use foreseer.Db.{EpochRow, epoch_by_id}
use foreseer.Engine.{Engine, Config}
use foreseer.Api.Pages.{epoch_json}
use foreseer.Demo.Anchor.{Contract, Poster, on_chain, anchor_of}

module _ {C : Type 0} (sdk : Sdk) (config : Config) (contract : Contract C) where
  -- The epoch is known, and anchored if it is closed.
  pub Settled : Poster C → ℕ → Type 0
  Settled p i =
      (e : EpochRow) × (epoch_by_id i p.server.db.epochs ≡ some e)
      × (is_some e.closed_at ≡ true → (contract.epochs p.chain i).anchored ≡ true)

  -- The server is the same, and what was anchored still is.
  abbrev Later : Poster C → Poster C → Type 0
  Later p p' =
      (p'.server ≡ p.server)
      × ((i : ℕ)
          → (contract.epochs p.chain i).anchored ≡ true
          → (contract.epochs p'.chain i).anchored ≡ true)

  -- The transaction that anchors the epoch `e`.
  abbrev post : ℕ → EpochRow → Exec (Poster C) Bool
  post i e =
      on_chain (contract.anchor_epoch (anchor_of sdk config contract i (epoch_json sdk e)))
      >> pure true

  pub AllSettled : Poster C → List ℕ → Type 0
  AllSettled p [] = Unit {0}
  AllSettled p (i ∷ is) = Settled p i × AllSettled p is

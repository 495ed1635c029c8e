-- ===== src/Engine/Proofs/Root.antt =====
-- A proof that is served carries the root that its epoch anchors.
use foreseer.Base.{ℕ, ◌≡◌, some, arith, get_elem?, inl, inr, Option-cases}
use foreseer.Base.Exec.{ok, Result-cases}
use foreseer.Sdk.{Sdk}
use foreseer.Db.{EpochRow, epoch_by_id}
use foreseer.Engine.{Engine, Config, Proof, cached_tree, proof_for}

pub proof_for-merkle_root :
    (sdk : Sdk) (config : Config) (s s' : Engine) (e : EpochRow) (i b : ℕ) (p : Proof)
    → epoch_by_id i s.db.epochs ≡ some e
    → proof_for sdk config i b s ≡ (ok p, s')
    → p.merkle_root ≡ e.merkle_root
unfolding proof_for
proof_for-merkle_root sdk config s s' e i b p f h = elim (Option-cases e.closed_at) [
  | inl c ↦ absurd (ground arith)
  | inr (t, c) ↦ elim (Result-cases (cached_tree sdk config e s).0) [
    | inl (x, q) ↦ absurd (ground arith)
    | inr (entry, q) ↦ elim (Option-cases (get_elem? entry.digests b)) [
      | inl g ↦ absurd (ground arith)
      | inr (d, g) ↦ ground arith
    ]
  ]
]

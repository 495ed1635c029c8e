-- ===== src/Sdk/Toy.antt =====
-- A concrete package that meets the hypotheses: texts are unary, a key signs with its own address, a
-- commitment is the seed itself, and a Merkle proof is the whole list of leaves.
use Prim.Native.Char.{code}
use text.Mathlib.TextPositions.{eq_refl}
use foreseer.Base.{
  ℕ, zero, suc, ◌+◌, ◌≡◌, refl, String, Bool, true, false, ◌&&◌, not, none, some, List, [], ◌∷◌,
  ◌++◌, any, get_elem?, arith, length, ◌==◌, nat_eq, string_eq, if◌then◌else◌, ltb,
}
use foreseer.Json.{Value, string, get}
use foreseer.Sdk.{Bytes, Receipt, Outcome, Sdk, SdkLaws}

abbrev to_hex : Bytes → String
to_hex [] = ""
to_hex (zero ∷ b) = String.◌∷◌ "0" (to_hex b)
to_hex (suc n ∷ b) = String.◌∷◌ "1" (to_hex (n ∷ b))

abbrev decode : ℕ → String → Bytes
decode k String.[] = []
decode k (String.◌∷◌ c s) =
    let stop = k ∷ decode 0 s in let go = decode (suc k) s in if code c == b'0' then stop else go

decode-to_hex : (k n : ℕ) (b : Bytes) → decode k (to_hex (n ∷ b)) ≡ (n + k) ∷ b
decode-to_hex k zero [] = ground arith
decode-to_hex k zero (m ∷ b) = ground (arith, decode-to_hex 0 m b)
decode-to_hex k (suc n) b = ground (arith, decode-to_hex (suc k) n b)

bytes_of_hex : (b : Bytes) → decode 0 (to_hex b) ≡ b
bytes_of_hex [] = refl
bytes_of_hex (n ∷ b) = ground (arith, decode-to_hex 0 n b)

abbrev list_beq : Bytes → Bytes → Bool
list_beq [] [] = true
list_beq [] (y ∷ ys) = false
list_beq (x ∷ xs) [] = false
list_beq (x ∷ xs) (y ∷ ys) = x == y && list_beq xs ys

list_beq_refl : (b : Bytes) → list_beq b b ≡ true
list_beq_refl [] = refl
list_beq_refl (x ∷ xs) = ground (arith, list_beq_refl xs)

abbrev flatten : List Bytes → Bytes
flatten [] = []
flatten (b ∷ bs) = b ++ flatten bs

any_leaf :
    (ls : List Bytes) (i : ℕ) (leaf : Bytes)
    → get_elem? ls i ≡ some leaf
    → any (list_beq leaf) ls ≡ true
any_leaf [] i leaf h = ground arith
any_leaf (l ∷ ls) zero leaf h = ground (arith, list_beq_refl leaf)
any_leaf (l ∷ ls) (suc i) leaf h = ground (arith, any_leaf ls i leaf h)

abbrev verify_proof : Bytes → List Bytes → Bytes → Bool
verify_proof leaf proof root = list_beq (flatten proof) root && any (list_beq leaf) proof

verify_proof_of_leaf :
    (ls : List Bytes) (i : ℕ) (leaf : Bytes)
    → get_elem? ls i ≡ some leaf
    → verify_proof leaf ls (flatten ls) ≡ true
verify_proof_of_leaf ls i leaf h = rw (list_beq_refl (flatten ls)) (any_leaf ls i leaf h)

abbrev bool_beq : Bool → Bool → Bool
bool_beq true b = b
bool_beq false true = false
bool_beq false false = true

-- The hash of a rule is its member "id".
abbrev rule_id : Value → String
rule_id (string s) = s
rule_id _ = "0x00"

-- One draw, which depends on the seed and the nonce.
abbrev outcome : Value → Bytes → String → ℕ → Outcome
outcome rule seed client_seed nonce = record {
  draws = (length seed + nonce) ∷ [];
  win = ltb nonce 1;
  payout_bp = 19800;
}

abbrev same_outcome : Outcome → Outcome → Bool
same_outcome a b = list_beq a.draws b.draws && bool_beq a.win b.win && a.payout_bp == b.payout_bp

same_outcome_refl : (a b : Outcome) → a ≡ b → same_outcome a b ≡ true
same_outcome_refl a b h = ground (arith, list_beq_refl a.draws)

abbrev receipt_outcome : Receipt → Outcome
receipt_outcome r = record { draws = r.draws; win = r.win; payout_bp = r.payout_bp }

abbrev pub toy : Sdk
toy = record {
  spec_version = 1;
  code_version = "0x6094";
  reference_key = "0";
  to_bytes = decode 0;
  to_hex = to_hex;
  address_of_private_key = to_hex;
  assert_client_seed = λ s. if s == "" then some "empty clientSeed" else none;
  is_valid_rule = λ rule. not (rule_id (get rule "id") == "0x00");
  rule_hash = λ rule. rule_id (get rule "id");
  seed_commit = to_hex;
  resolve_outcome = outcome;
  receipt_digest = λ r d. r.epoch_id ∷ r.bet_id ∷ r.nonce ∷ [];
  sign_receipt = λ r d k. record { receipt = r; signature = to_hex k };
  sign_epoch_close = λ c d k. to_hex k;
  recover_signer = λ digest signature. some signature;
  merkle_root = λ t. flatten t.leaves;
  merkle_proof = λ t i. t.leaves;
  verify_merkle_proof = verify_proof;
  verify_commit = λ seed commit. seed == commit;
  verify_outcome = λ r rule seed.
      rule_id (get rule "id") == r.rule_hash
      && same_outcome (outcome rule (decode 0 seed) r.client_seed r.nonce) (receipt_outcome r);
}

outcome_of_seed :
    (r : Receipt) (rule : Value) (seed : String)
    → toy.rule_hash rule ≡ r.rule_hash
    → toy.resolve_outcome rule (toy.to_bytes seed) r.client_seed r.nonce ≡ receipt_outcome r
    → toy.verify_outcome r rule seed ≡ true
outcome_of_seed r rule seed h e =
    rw (h, eq_refl r.rule_hash) (same_outcome_refl _ (receipt_outcome r) e)

pub toy-SdkLaws : SdkLaws toy
toy-SdkLaws = record {
  bytes_of_hex = bytes_of_hex;
  signed_receipt = λ r d k. refl;
  signer_of_signed = λ r d k. refl;
  commit_of_seed = λ seed. eq_refl (to_hex seed);
  outcome_of_seed = outcome_of_seed;
  proof_of_leaf = λ t i leaf h. verify_proof_of_leaf t.leaves i leaf h;
}

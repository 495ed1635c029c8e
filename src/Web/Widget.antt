-- ===== src/Web/Widget.antt =====
-- web/widget/widget-core.mjs and widget-entry.mjs: the verification page. The text fields of the form
-- pass on what is put into them; trimming white space and JSON.stringify are left out.
pub mod Green
pub mod Escape
use Prim.Native.Char.{code}
use Prim.Native.String
use foreseer.Base.{
  ℕ, String, Bool, true, false, ◌&&◌, Option, none, some, List, map, ◌==◌, nat_eq, string_eq,
  if◌then◌else◌,
}
use foreseer.Base.Text.{decimal}
use foreseer.Base.Exec.{Result, ok, err, thrown, Exec, pure, lift, gets, or_raise, ◌>>=◌, ◌>>◌}
use foreseer.Json.{Value, undefined, string}
use foreseer.Sdk.{Bytes, Domain, Sdk, Receipt, SignedReceipt, SignatureCheck, Verifier}
use foreseer.Engine.{Engine, Config, Proof}
use foreseer.Api.Rules.{fetch_rule}
use foreseer.Api.Pages.{ReceiptJson, EpochJson, Health, by_id, receipts, proof}
use foreseer.Demo.Client.{client_domain, entry_in}

pub record Input : Type 0 where
  pub receipt : Receipt
  pub signature : String
  pub rule : Value
  pub server_seed : String
  pub merkle_root : String
  pub path : List String
  pub expected_tee_id : Option String
  pub chain_id : ℕ

pub record Report : Type 0 where
  pub tee_id : Option String
  pub digest : String
  pub signature_ok : Bool
  pub commit_ok : Bool
  pub outcome_ok : Bool
  pub merkle_ok : Bool
  pub all_green : Bool

pub record Loaded : Type 0 where
  pub entry : ReceiptJson
  pub rule : Value
  pub server_seed : String
  pub seed_commit : String
  pub merkle_root : Option String
  pub path : List String
  pub tee_id : String

unfoldable pub run_checks : Sdk → Verifier → Input → Report
run_checks sdk verify_signature input =
    let domain = client_domain input.chain_id in
    let signed : SignedReceipt = record { receipt = input.receipt; signature = input.signature } in
    let sig = verify_signature signed domain input.expected_tee_id in
    let commit = sdk.verify_commit input.server_seed input.receipt.seed_commit in
    let outcome = sdk.verify_outcome input.receipt input.rule input.server_seed in
    let digest = sdk.receipt_digest input.receipt domain in
    let merkle =
      sdk.verify_merkle_proof digest (map sdk.to_bytes input.path)
        (sdk.to_bytes input.merkle_root) in
    record {
      tee_id = sig.tee_id;
      digest = sdk.to_hex digest;
      signature_ok = sig.accepted;
      commit_ok = commit;
      outcome_ok = outcome;
      merkle_ok = merkle;
      all_green = sig.accepted && commit && outcome && merkle;
    }

module _ (sdk : Sdk) (config : Config) (health : Health) where
  -- Each `get` throws what the server's error says.
  unfoldable pub load_from_server : ℕ → ℕ → Exec Engine Loaded
  load_from_server epoch_id bet_id = do
    epoch ← by_id sdk config (decimal epoch_id)
    seed ← or_raise epoch.server_seed thrown
    page ← receipts sdk config (decimal epoch_id) undefined (string "1000") undefined
    entry ← or_raise (entry_in bet_id page.receipts) thrown
    path ← proof sdk config (decimal epoch_id) (decimal bet_id)
    found ← gets (λ s. fetch_rule sdk s.db entry.receipt.rule_hash)
    rule ← lift found
    pure (record {
      entry = entry;
      rule = rule;
      server_seed = seed;
      seed_commit = epoch.seed_commit;
      merkle_root = epoch.merkle_root;
      path = path.proof;
      tee_id = health.tee_id;
    })

-- The value of a text field that is set to null.
abbrev pub field_of : Option String → String
field_of none = ""
field_of (some s) = s

-- `$("teeId").value.trim() || undefined`.
abbrev pub expected_of : String → Option String
expected_of s = if s == "" then none else some s

-- loadIntoForm and inputs: the form keeps its own chain id.
unfoldable pub form_input : ℕ → Loaded → Input
form_input chain_id loaded = record {
  receipt = loaded.entry.receipt;
  signature = loaded.entry.signature;
  rule = loaded.rule;
  server_seed = loaded.server_seed;
  merkle_root = field_of loaded.merkle_root;
  path = loaded.path;
  expected_tee_id = expected_of loaded.tee_id;
  chain_id = chain_id;
}

-- The deep link and the buttons: load, then check what the form holds.
unfoldable pub load_and_check : Sdk → Verifier → Config → Health → ℕ → ℕ → ℕ → Exec Engine Report
unfolding load_from_server form_input run_checks
load_and_check sdk verify_signature config health chain_id epoch_id bet_id = do
  loaded ← load_from_server sdk config health epoch_id bet_id
  pure (run_checks sdk verify_signature (form_input chain_id loaded))

-- esc: the five characters that mean something in HTML.
escape_char : ℕ → Option String
escape_char c =
    if c == b'&'
    then some "&amp;"
    else if c == b'<'
    then some "&lt;"
    else if c == b'>'
    then some "&gt;"
    else if c == 34
    then some "&quot;"
    else if c == 39
    then some "&#39;"
    else none

unfoldable pub esc : String → String
unfolding escape_char
esc String.[] = ""
esc (String.◌∷◌ c s) = elim (escape_char (code c)) [
  | none ↦ String.◌∷◌ c (esc s)
  | some t ↦ String.◌++◌ t (esc s)
]

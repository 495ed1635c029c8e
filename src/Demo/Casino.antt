-- ===== src/Demo/Casino.antt =====
-- demo/server.mjs: `ruleFor`, `ensureRegistered` and `spin`, the demo casino as a client of the server.
pub mod Calls
pub mod Spin
use Prim.Native.String.{◌++◌}
use foreseer.Base.{
  ℕ, String, Bool, true, false, Option, none, some, List, [], ◌∷◌, any, ◌==◌, nat_eq, string_eq,
  if◌then◌else◌,
}
use foreseer.Base.Text.{decimal}
use foreseer.Base.Exec.{
  Error, Result, ok, err, api, thrown, Exec, pure, raise, gets, modify, or_raise, ◌>>=◌, ◌>>◌,
}
use foreseer.Json.{Value, string, object, field, end, get}
use foreseer.Sdk.{Bytes, Sdk, Receipt, SignedReceipt, Verifier}
use foreseer.Db.{OperatorRow}
use foreseer.Engine.{Engine, Config, Played}
use foreseer.Api.Filter.{error_response}
use foreseer.Api.Rules.{register}
use foreseer.Api.Play.{play_handler}
use foreseer.Web.DemoTee.{draw_of}
use foreseer.Base.JsMap.{JsMap}
use foreseer.Guards.{Request, Rate, Window, operator_guard, play_rate_guard}
use foreseer.Demo.Setup.{no_headers}
use foreseer.Demo.Client.{client_domain}

-- The three calls of the preset `roulette`.
pub data Bet : Type 0 where
  straight : Value → Bet
  flat : String → Bet
  indexed : String → Value → Bet

-- What the casino uses of foreseer-sdk beside the record Sdk: CLIENT_SEED_RE, the preset, which gives
-- `none` where it throws, the colours and the check of a signature.
pub record CasinoSdk : Type 0 where
  pub is_client_seed : String → Bool
  pub roulette : Bet → Option Value
  pub pocket_color : Option ℕ → String
  pub verify_signature : Verifier

-- The server that the casino calls, with the windows of its PlayRateGuard, and the casino's set of
-- registered rule hashes.
pub record Casino : Type 0 where
  pub server : Engine
  pub windows : JsMap ℕ Window
  pub registered : List String

pub record SpinAnswer : Type 0 where
  pub epoch_id : ℕ
  pub bet_id : ℕ
  pub nonce : ℕ
  pub number : Option ℕ
  pub color : String
  pub win : Bool
  pub payout_bp : ℕ
  pub receipt : Receipt
  pub signature : String

abbrev pub flat_bets : List String
flat_bets = "red" ∷ "black" ∷ "even" ∷ "odd" ∷ "low" ∷ "high" ∷ []

abbrev pub bet_of : String → Value → Option Bet
bet_of kind bet =
    if kind == "straight"
    then some (straight (get bet "number"))
    else if any (λ f. f == kind) flat_bets
    then some (flat kind)
    else if kind == "dozen"
    then some (indexed kind (get bet "index"))
    else if kind == "column"
    then some (indexed kind (get bet "index"))
    else none

abbrev pub preset_of : CasinoSdk → Option Bet → Option Value
preset_of casino none = none
preset_of casino (some bet) = casino.roulette bet

abbrev pub rule_of_type : CasinoSdk → Value → Value → Option Value
rule_of_type casino (string kind) bet = preset_of casino (bet_of kind bet)
rule_of_type casino _ bet = none

unfoldable pub rule_for : CasinoSdk → Value → Option Value
rule_for casino bet = rule_of_type casino (get bet "type") bet

-- `typeof body?.clientSeed !== "string" || !CLIENT_SEED_RE.test(body.clientSeed)`.
abbrev pub seed_of : CasinoSdk → Value → Option String
seed_of casino (string s) = if casino.is_client_seed s then some s else none
seed_of casino _ = none

-- A call of the server whose answer is a value (`apiRaw`).
abbrev pub answered : {A : Type 0} → Exec Casino A → Exec Casino (Result A)
answered m c = let (r, c') = m c in (ok r, c')

abbrev pub at_engine : {A : Type 0} → Exec Engine A → Exec Casino A
at_engine m c = let (r, s) = m c.server in (r, record c { server = s })

abbrev pub at_windows : {A : Type 0} → Exec (JsMap ℕ Window) A → Exec Casino A
at_windows m c = let (r, ws) = m c.windows in (r, record c { windows = ws })

-- `api` throws where the status is no success.
abbrev pub or_thrown : {S A : Type 0} → Result A → Exec S A
or_thrown (ok a) = pure a
or_thrown (err e) = raise thrown

-- operatorHeaders().
abbrev pub keyed : String → Request
keyed key = record no_headers { api_key = some key }

-- The server's settings for the casino: its package, engine, price and rate limit of plays, with SHA-256.
pub record Served : Type 0 where
  pub sdk : Sdk
  pub config : Config
  pub price : ℕ
  pub rate : Rate
  pub sha256 : String → String

-- `key` is the casino's DEMO_OPERATOR_KEY.
module _ (served : Served) (casino : CasinoSdk) (key : Option String) where
  -- OperatorGuard.
  abbrev pub known_as : String → Exec Casino OperatorRow
  known_as k c = (operator_guard served.sha256 c.server.db (keyed k), c)

  -- POST /rules behind its guard.
  abbrev pub register_as : String → Value → ℕ → Exec Casino String
  register_as k body now = do op ← known_as k; at_engine (register served.sdk op.id body now)

  -- POST /play behind its two guards.
  abbrev pub play_as : String → Value → ℕ → ℕ → Bytes → Exec Casino Played
  play_as k body now now_ms fresh = do
    op ← known_as k
    at_windows (play_rate_guard served.rate op.id now_ms)
    at_engine (play_handler served.sdk served.config served.price op body now fresh)

  unfoldable pub ensure_registered : Value → ℕ → Exec Casino String
  ensure_registered rule now = do
    let hash = served.sdk.rule_hash rule
    known ← gets (λ c. any (λ h. h == hash) c.registered)
    elim known [
      | true ↦ pure hash
      | false ↦ do
        k ← or_raise key thrown
        stored ← answered (register_as k (object (field "rule" rule end)) now)
        or_thrown stored
        modify (λ c. record c { registered = hash ∷ c.registered })
        pure hash
    ]

  abbrev pub answer_to : Played → SpinAnswer
  answer_to p =
      let number = draw_of p.signed.receipt.draws in
      record {
        epoch_id = p.epoch_id;
        bet_id = p.bet_id;
        nonce = p.signed.receipt.nonce;
        number = number;
        color = casino.pocket_color number;
        win = p.signed.receipt.win;
        payout_bp = p.signed.receipt.payout_bp;
        receipt = p.signed.receipt;
        signature = p.signed.signature;
      }

  -- The casino checks the signature before it answers.
  abbrev pub check_played : Result Played → Exec Casino SpinAnswer
  check_played (err e) =
      let status = (error_response e).status in
      if status == 402
      then raise (api 402 "casino balance empty, run: node topup.mjs")
      else raise (api 502 ("foreseer /play failed: " ++ decimal status))
  check_played (ok p) =
      let check =
        casino.verify_signature p.signed (client_domain served.config.domain.chain_id)
          (some served.config.tee_id) in
      if check.accepted
      then pure (answer_to p)
      else raise (api 502 ("receipt signature rejected: " ++ check.error))

  abbrev pub play_request : String → String → Value
  play_request client_seed hash =
      object (field "clientSeed" (string client_seed) (field "ruleHash" (string hash) end))

  unfoldable pub spin : Value → ℕ → ℕ → Bytes → Exec Casino SpinAnswer
  unfolding ensure_registered rule_for
  spin body now now_ms fresh = do
    client_seed ←
        or_raise (seed_of casino (get body "clientSeed"))
          (api 400 "clientSeed must match ^[A-Za-z0-9_-]{1,64}$")
    rule ←
        or_raise (rule_for casino (get body "bet"))
          (api 400 "bet must be straight 0..36, red, black, even, odd, low, high, dozen or column")
    hash ← ensure_registered rule now
    k ← or_raise key thrown
    played ← answered (play_as k (play_request client_seed hash) now now_ms fresh)
    check_played played

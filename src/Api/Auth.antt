-- ===== src/Api/Auth.antt =====
-- AuthController: the nonce and the login of a wallet.
pub mod Parsed
use foreseer.Base.{ℕ, String}
use foreseer.Base.Exec.{api, err, Exec, pure, lift, ◌>>=◌}
use foreseer.Json.{Value, get}
use foreseer.Sdk.{Bytes, Sdk}
use foreseer.Wallet.{Sessions, Ttl, issue_nonce, login}
use foreseer.Wallet.Text.{parse_wallet}
use foreseer.Api.Play.{text_or}

pub record Challenge : Type 0 where
  pub wallet : String
  pub nonce : String
  pub message : String

pub record LoggedIn : Type 0 where
  pub wallet : String
  pub token : String
  pub expires_at : ℕ

module _ (sdk : Sdk) (keccak_256 : Bytes → Bytes) (ttl : Ttl) where
  -- GET /auth/nonce, with the query parameter `wallet`.
  unfoldable pub auth_nonce : Value → ℕ → String → Exec Sessions Challenge
  auth_nonce wallet_raw now nonce = do
    wallet ← lift (parse_wallet wallet_raw)
    issued ← issue_nonce sdk keccak_256 ttl wallet now nonce
    pure (record { wallet = wallet; nonce = issued.nonce; message = issued.message })

  -- POST /auth/login.
  unfoldable pub auth_login : Value → ℕ → String → Exec Sessions LoggedIn
  auth_login body now token = do
    wallet ← lift (parse_wallet (get body "wallet"))
    signature ← lift (text_or (get body "signature") (err (api 400 "signature required")))
    session ← login sdk keccak_256 ttl wallet signature now token
    pure (record { wallet = wallet; token = session.token; expires_at = session.expires_at })

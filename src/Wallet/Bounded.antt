-- ===== src/Wallet/Bounded.antt =====
-- The maps of WalletSessions stay bounded.
use foreseer.Base.{ℕ, ◌+◌, ◌≤◌, String, arith, length, string_eq}
use foreseer.Base.JsMap.{length-set-le, length-delete-le}
use foreseer.Sdk.{Bytes, Sdk}
use foreseer.Wallet.Prune.{length-prune-lt}
use foreseer.Wallet.{Entry, Sessions, Ttl, map_cap, prune, issue_nonce, login}

-- Both maps are within the cap.
pub record IsBounded (s : Sessions) : Type 0 where
  pub nonces : length s.nonces ≤ map_cap
  pub tokens : length s.tokens ≤ map_cap

module _ (sdk : Sdk) (keccak_256 : Bytes → Bytes) (ttl : Ttl) (wallet : String) where
  -- A new nonce keeps both maps within the cap.
  pub issue_nonce-IsBounded :
      (now : ℕ) (nonce : String) (s : Sessions)
      → IsBounded s
      → IsBounded (issue_nonce sdk keccak_256 ttl wallet now nonce s).1
  unfolding issue_nonce
  issue_nonce-IsBounded now nonce s b =
      let entry : Entry = record { value = nonce; expires = now + ttl.nonce } in
      record {
        nonces =
            omega (
              arith,
              length-set-le (prune now s.nonces) wallet entry,
              length-prune-lt now s.nonces,
            );
        tokens = b.tokens;
      }

  -- A login keeps both maps within the cap, whether it succeeds or not.
  pub login-IsBounded :
      (signature : String) (now : ℕ) (token : String) (s : Sessions)
      → IsBounded s
      → IsBounded (login sdk keccak_256 ttl wallet signature now token s).1
  unfolding login
  login-IsBounded signature now token s b =
      let entry : Entry = record { value = wallet; expires = now + ttl.token } in
      ground (
        arith,
        length-set-le (prune now s.tokens) token entry,
        length-prune-lt now s.tokens,
        length-delete-le s.nonces wallet,
      )

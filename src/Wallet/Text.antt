-- ===== src/Wallet/Text.antt =====
-- server/src/wallet.ts: parseWallet, loginMessage, personalDigest and recoverWallet.
use Prim.Native.Char.{Char, code}
use Prim.Native.String.{◌++◌}
use mathlib.Core.List
use foreseer.Base.{
  ℕ, ◌+◌, ◌-◌, ◌*◌, ◌/◌, ◌%◌, String, Bool, Option, none, [], ◌∷◌, ltb, leb, ◌==◌, nat_eq,
  if◌then◌else◌, length,
}
use foreseer.Base.Text.{codes, decimal, is_hex_digit, is_0x, to_lower_case}
use foreseer.Base.Exec.{Result, ok, err, api}
use foreseer.Json.{Value, string}
use foreseer.Sdk.{Bytes, Sdk}

-- WALLET_RE.
unfoldable pub is_wallet_text : String → Bool
is_wallet_text s = is_0x is_hex_digit 40 (codes s)

unfoldable pub parse_wallet : Value → Result String
unfolding is_wallet_text
parse_wallet (string s) =
    if is_wallet_text s then ok (to_lower_case s) else err (api 400 "wallet must be a 0x address")
parse_wallet _ = err (api 400 "wallet must be a 0x address")

unfoldable pub login_message : String → String → String
login_message wallet nonce = "Foreseer wallet login\nWallet: " ++ wallet ++ "\nNonce: " ++ nonce

-- TextEncoder: a code point in UTF-8.
utf8_char : ℕ → Bytes
utf8_char c =
    if ltb c 0x80
    then c ∷ []
    else if ltb c 0x800
    then (0xc0 + c / 64) ∷ (0x80 + c % 64) ∷ []
    else if ltb c 0x1_0000
    then (0xe0 + c / 4096) ∷ (0x80 + c / 64 % 64) ∷ (0x80 + c % 64) ∷ []
    else (0xf0 + c / 262144) ∷ (0x80 + c / 4096 % 64) ∷ (0x80 + c / 64 % 64) ∷ (0x80 + c % 64) ∷ []

utf8 : String → Bytes
unfolding utf8_char
utf8 String.[] = []
utf8 (String.◌∷◌ c s) = List.◌++◌ (utf8_char (code c)) (utf8 s)

-- EIP-191 personal_sign; 25 is the byte \x19.
unfoldable pub personal_digest : (Bytes → Bytes) → String → Bytes
unfolding utf8
personal_digest keccak_256 message =
    let body = utf8 message in
    keccak_256 (List.◌++◌ (25 ∷ utf8 ("Ethereum Signed Message:\n" ++ decimal (length body))) body)

hex_value : ℕ → ℕ
hex_value c = if leb c b'9' then c - b'0' else c - b'a' + 10

-- The last two hex digits, read as `v`: 0 and 1 become 27 and 28.
shift_v : Char → Char → String
unfolding hex_value
shift_v c d =
    let v = hex_value (code c) * 16 + hex_value (code d) in
    if v == 0 then "1b" else if v == 1 then "1c" else String.◌∷◌ c (String.◌∷◌ d "")

normalize : String → String
unfolding shift_v
normalize String.[] = ""
normalize (String.◌∷◌ c String.[]) = String.◌∷◌ c ""
normalize (String.◌∷◌ c (String.◌∷◌ d String.[])) = shift_v c d
normalize (String.◌∷◌ c (String.◌∷◌ d (String.◌∷◌ e s))) =
    String.◌∷◌ c (normalize (String.◌∷◌ d (String.◌∷◌ e s)))

unfoldable pub recover_wallet : Sdk → (Bytes → Bytes) → String → String → Option String
unfolding normalize
recover_wallet sdk keccak_256 message signature =
    if is_0x is_hex_digit 130 (codes signature)
    then sdk.recover_signer (personal_digest keccak_256 message)
        (normalize (to_lower_case signature))
    else none

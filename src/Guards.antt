-- ===== src/Guards.antt =====
-- server/src/guards.ts: the guards before a handler. A request is its headers and its address; SHA-256
-- (node:crypto) is the argument `sha256`, and the clock, in milliseconds, the argument `now_ms`.
pub mod Windows
pub mod Access
use Prim.Native.String
use Prim.Native.Char.{Char, code}
use foreseer.Base.{
  ℕ, suc, ◌+◌, ◌*◌, ◌/◌, String, Bool, true, false, ◌&&◌, ◌||◌, Option, none, some, List, [], ◌∷◌,
  find, ltb, leb, ◌==◌, Eq, nat_eq, string_eq, if◌then◌else◌, length,
}
use foreseer.Base.JsMap.{JsMap, get, set}
use foreseer.Base.Exec.{api, Exec, Result, ok, err, pure, raise, gets, guard, or_raise, ◌>>=◌, ◌>>◌}
use foreseer.Db.{Db, OperatorRow}

-- A header that is absent or given more than once (a list) is no text: `none`.
pub record Request : Type 0 where
  pub admin_key : Option String
  pub api_key : Option String
  pub forwarded_for : Option String
  pub owner_token : Option String
  pub ip : Option String

pub record Rate : Type 0 where
  pub limit : ℕ
  pub window_seconds : ℕ

pub record Window : Type 0 where
  pub window : ℕ
  pub count : ℕ

-- Math.floor(Date.now() / (windowSeconds * 1000)), for a window that is not 0.
abbrev pub window_at : Rate → ℕ → ℕ
window_at rate now_ms = now_ms / (rate.window_seconds * 1000)

-- What both rate guards do with an entry: a new window starts at one, and a full one refuses.
abbrev pub count_in :
    {K : Type 0} ⦃e : Eq K⦄ → ℕ → K → ℕ → Option Window → Exec (JsMap K Window) Bool
count_in limit key window none m = (ok true, set m key (record { window = window; count = 1 }))
count_in limit key window (some entry) m =
    if entry.window == window
    then (if leb limit entry.count
        then (err (api 429 "rate limit exceeded, retry later"), m)
        else (ok true, set m key (record entry { count = entry.count + 1 })))
    else (ok true, set m key (record { window = window; count = 1 }))

-- PlayRateGuard.canActivate, for the operator that OperatorGuard left on the request.
unfoldable pub play_rate_guard : Rate → ℕ → ℕ → Exec (JsMap ℕ Window) Bool
play_rate_guard rate id now_ms m = count_in rate.limit id (window_at rate now_ms) (get m id) m

-- The white space of String.prototype.trim.
is_space : ℕ → Bool
is_space c =
    (leb 9 c && leb c 13)
    || c == 32
    || c == 160
    || c == 5760
    || (leb 8192 c && leb c 8202)
    || c == 8232
    || c == 8233
    || c == 8239
    || c == 8287
    || c == 12288
    || c == 65279

trim_start : String → String
unfolding is_space
trim_start String.[] = ""
trim_start (String.◌∷◌ c s) =
    let rest = trim_start s in if is_space (code c) then rest else String.◌∷◌ c s

-- A character before a text whose end is trimmed.
trim_cons : Char → String → String
unfolding is_space
trim_cons c String.[] = if is_space (code c) then "" else String.◌∷◌ c ""
trim_cons c (String.◌∷◌ d s) = String.◌∷◌ c (String.◌∷◌ d s)

trim_end : String → String
unfolding trim_cons
trim_end String.[] = ""
trim_end (String.◌∷◌ c s) = trim_cons c (trim_end s)

-- `s.split(",")[0]`.
before_comma : String → String
before_comma String.[] = ""
before_comma (String.◌∷◌ c s) =
    let rest = String.◌∷◌ c (before_comma s) in if code c == b',' then "" else rest

-- The address by which ReadRateGuard counts.
unfoldable pub client_ip : Option String → Option String → String
unfolding trim_start trim_end before_comma
client_ip (some forwarded) ip = trim_end (trim_start (before_comma forwarded))
client_ip none (some ip) = ip
client_ip none none = "unknown"

-- The map is cleared when a new window finds more than 50000 addresses in it.
abbrev pub cleared : JsMap String Window → JsMap String Window
cleared m = if ltb 50000 (length m) then [] else m

abbrev pub count_read : ℕ → String → ℕ → Option Window → Exec (JsMap String Window) Bool
count_read limit ip window none m = count_in limit ip window none (cleared m)
count_read limit ip window (some entry) m =
    if entry.window == window
    then count_in limit ip window (some entry) m
    else count_in limit ip window (some entry) (cleared m)

-- SELECT ... FROM operators WHERE api_key_hash = ?.
unfoldable pub operator_by_key : String → Db → Option OperatorRow
operator_by_key hash db = find (λ o. o.api_key_hash == hash) db.operators

module _ (sha256 : String → String) where
  abbrev pub same_digest : String → Option String → Bool
  same_digest admin_key none = sha256 "" == sha256 admin_key
  same_digest admin_key (some given) = sha256 given == sha256 admin_key

  -- AdminGuard.canActivate.
  unfoldable pub admin_guard : String → Request → Result Bool
  admin_guard admin_key req =
      if same_digest admin_key req.admin_key then ok true else err (api 401 "admin key required")

  abbrev pub has_admin_key : String → Option String → Bool
  has_admin_key admin_key none = false
  has_admin_key admin_key (some given) = sha256 given == sha256 admin_key

  abbrev pub is_active : Option OperatorRow → Bool
  is_active none = false
  is_active (some row) = row.active == 1

  abbrev pub has_active_key : Option String → Db → Bool
  has_active_key none db = false
  has_active_key (some key) db = is_active (operator_by_key (sha256 key) db)

  abbrev pub credentialed : String → Request → Db → Bool
  credentialed admin_key req db =
      has_admin_key admin_key req.admin_key || has_active_key req.api_key db

  -- ReadRateGuard.canActivate.
  unfoldable pub read_rate_guard :
      Rate → String → Db → Request → ℕ → Exec (JsMap String Window) Bool
  unfolding client_ip
  read_rate_guard rate admin_key db req now_ms m =
      if credentialed admin_key req db
      then (ok true, m)
      else (let ip = client_ip req.forwarded_for req.ip in
          count_read rate.limit ip (window_at rate now_ms) (get m ip) m)

  abbrev pub check_operator : Option OperatorRow → Result OperatorRow
  check_operator none = err (api 401 "unknown api key")
  check_operator (some row) = if row.active == 0 then err (api 403 "operator suspended") else ok row

  abbrev pub check_key : Option String → Db → Result OperatorRow
  check_key none db = err (api 401 "x-api-key header required")
  check_key (some key) db = check_operator (operator_by_key (sha256 key) db)

  -- OperatorGuard.canActivate: the operator that it leaves on the request.
  unfoldable pub operator_guard : Db → Request → Result OperatorRow
  operator_guard db req = check_key req.api_key db

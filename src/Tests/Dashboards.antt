-- ===== src/Tests/Dashboards.antt =====
-- The theorems about the operator dashboard, for a package that recovers one wallet from any signature.
use foreseer.Base.{
  ℕ, ◌≡◌, refl, String, true, none, some, List, [], ◌∷◌, ◌++◌, arith, length, text_iff,
}
use foreseer.Base.Int.{negsuc}
use foreseer.Base.Text.{codes, decimal, to_lower_case}
use foreseer.Base.JsMap.{get, set}
use foreseer.Base.Exec.{ok}
use foreseer.Engine.{Config, new_config}
use foreseer.Wallet.{login, prune, drop_expired, evict, issue_nonce}
use foreseer.Api.Auth.{auth_nonce, auth_login}
use foreseer.Wallet.Text.{is_wallet_text, parse_wallet, login_message, recover_wallet}
use foreseer.Api.Billing.{Me, me}
use foreseer.Api.Params.{natural_of}
use foreseer.Api.Run.{genesis}
use foreseer.Web.Dashboard.{
  reply, fresh, got_me, Page, new_page, World, Event, shown, shown_key, token_of, empty_session,
  resume, on_account, sign_in, serve, handle, dashboard_run,
}
use foreseer.Web.Dashboard.Shown.{AllIssue, dashboard_run-Shown}
use foreseer.Web.Dashboard.SignIn.{account_of, logged_in, signed_in, sign_in_events, sign_in_lem}
use foreseer.Web.Dashboard.Switch.{late_account-hides, sign_in-shown_key}
use foreseer.Web.Dashboard.Amount.{pad_start, flr, flr-read}
use foreseer.Tests.{options}
use foreseer.Tests.Wallets.{alice, signature, signing, same, ttl}

abbrev address : String
address = "0xAAAAAAAAAAAAAAAAAAAAAAAAAAAAAAAAAAAAAAAA"

abbrev hash : String → String
hash s = s

abbrev config : Config
config = new_config signing options

abbrev opened : World
opened = record {
  engine = genesis;
  sessions = record { nonces = []; tokens = []; table = none };
  page = new_page (some []);
}

-- A page on which another wallet was given a key.
abbrev with_key : World
with_key = record opened {
  page = record opened.page { issued = some (record { name = "service"; api_key = "fsk_1" }) };
}

abbrev events : List Event
events = sign_in_events address "n1" signature "t1" 10 20 30

is_address : is_wallet_text (to_lower_case address) ≡ true
unfolding is_wallet_text to_lower_case
is_address = refl

recovered :
    recover_wallet signing same (login_message (to_lower_case address) "n1") signature
    ≡ some (to_lower_case address)
unfolding recover_wallet to_lower_case
recovered = refl

no_token : token_of address opened.page ≡ none
unfolding get
no_token = refl

sign_in_lem_example :
    (dashboard_run hash signing same config ttl 7 events opened
      ≡ signed_in hash signing same config ttl 7 address "n1" signature "t1" 10 20 30 opened)
    × (me 7
          (logged_in hash signing same config ttl 7 address "n1" signature "t1" 10 20 30 opened)
          (some "t1")
          30
          genesis
        ≡ (
          ok (
              account_of hash signing same config ttl 7 address "n1" signature "t1" 10 20 30
                opened),
          genesis,
        ))
sign_in_lem_example =
    sign_in_lem hash signing same config ttl 7 address "n1" signature "t1" 10 20 30 opened refl
      no_token refl is_address recovered (omega arith) (omega arith)

sign_in-shown_key_example :
    shown_key ((dashboard_run hash signing same config ttl 7 events with_key).page)
    ≡ some (record { name = "service"; api_key = "fsk_1" })
sign_in-shown_key_example =
    sign_in-shown_key hash signing same config ttl 7 address "n1" signature "t1" 10 20 30 with_key
      refl no_token refl is_address recovered (omega arith) (omega arith)

all_issue : AllIssue (λ t. alice) hash signing same config ttl 7 events opened
unfolding handle serve sign_in resume get set auth_nonce auth_login login prune drop_expired evict
    parse_wallet is_wallet_text to_lower_case recover_wallet issue_nonce login_message me
all_issue = (tt, (tt, (tt, (tt, (tt, (refl, (tt, (tt, (tt, tt)))))))))

dashboard_run-Shown_example :
    (a : String) × ((dashboard_run hash signing same config ttl 7 events opened).page.account
      ≡ some a)
    × (to_lower_case address ≡ to_lower_case a)
dashboard_run-Shown_example =
    dashboard_run-Shown (λ t. alice) hash signing same config ttl 7 events opened
      (account_of hash signing same config ttl 7 address "n1" signature "t1" 10 20 30 opened)
      (tt, record { storage = tt; tasks = tt; session = tt }) all_issue
      (rw sign_in_lem_example.0 refl)

abbrev other : Me
other = record { wallet = alice; price_per_play_wei = 7; operators = [] }

abbrev signed_in_page : Page
signed_in_page = record opened.page { account = some "0xB"; started = some "0xB" }

late_account-hides_example :
    (shown (resume (got_me fresh address (reply other)) signed_in_page) ≡ empty_session)
    × (on_account (some "0xB") (resume (got_me fresh address (reply other)) signed_in_page)
        ≡ resume (got_me fresh address (reply other)) signed_in_page)
late_account-hides_example =
    late_account-hides fresh "0xB" address other signed_in_page refl refl
      (ground (arith, text_iff address "0xB"))

printed : flr (negsuc 1_000_500_000_000_000_000) ≡ "-1.0005"
unfolding flr decimal pad_start
printed = refl

flr-read_example :
    (whole fraction : List ℕ) × (codes (flr (negsuc 1_000_500_000_000_000_000))
      ≡ codes "-" ++ (whole ++ b'.' ∷ fraction))
    × (length fraction ≡ 4)
    × (natural_of whole ≡ some 1)
    × (natural_of fraction ≡ some 5)
flr-read_example = flr-read (negsuc 1_000_500_000_000_000_000)

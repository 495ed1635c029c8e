-- ===== src/Tests/Accounts.antt =====
-- The theorems about deposits and charges, at the run of Tests.antt.
use foreseer.Base.{◌≤◌, refl, none, some, inr, string_eq, nat_eq}
use foreseer.Sdk.Toy.{toy, toy-SdkLaws}
use foreseer.Engine.{new_config}
use foreseer.Funds.Sums.{spent, deposited}
use foreseer.Api.Operators.{create_operator, owner_of}
use foreseer.Api.Topup.{credit}
use foreseer.Api.Topup.Once.{CreditAnswer, credit_answers, CreditedOnce, credit-CreditedOnce}
use foreseer.Api.Run.{genesis, run}
use foreseer.Api.Run.Prepaid.{run_prepaid}
use foreseer.Tests.{same_text, options, acme, paid, calls, after}

run_prepaid_example :
    spent 1 none (run same_text toy (new_config toy options) 5 calls genesis).db.receipts
    ≤ deposited 1 (run same_text toy (new_config toy options) 5 calls genesis).db.deposits
run_prepaid_example =
    run_prepaid same_text toy (new_config toy options) 5 1 "0xaa" toy-SdkLaws calls
      (inr refl, (inr refl, (inr refl, tt)))

credit_answers_example :
    CreditAnswer acme "0xcc" "0x02"
      (some paid)
      500
      after
      (credit acme "0xcc" "0x02" (some paid) 500 after)
credit_answers_example = credit_answers acme "0xcc" "0x02" 500 after (some paid)

credit-CreditedOnce_example :
    CreditedOnce (credit acme "0xcc" "0x01" (some paid) 500 after).1.db.deposits
unfolding after create_operator owner_of
credit-CreditedOnce_example =
    credit-CreditedOnce acme "0xcc" "0x01" 500 after (some paid) (refl, tt)

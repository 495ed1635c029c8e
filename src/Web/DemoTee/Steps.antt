-- ===== src/Web/DemoTee/Steps.antt =====
-- The demo engine keeps its three lists in step, plays within the limit, and reveals closed epochs only.
use foreseer.Base.{
  ℕ, suc, ◌≤◌, ◌≡◌, refl, String, true, false, Option, none, some, List, [], ◌∷◌, ◌++◌, arith,
  length, length-append, leb, inl, inr, Bool-cases,
}
use foreseer.Base.Exec.{Result-cases}
use foreseer.Json.{Value}
use foreseer.Sdk.{Sdk}
use foreseer.Web.DemoTee.{
  ReferenceTee, DemoConfig, Demo, rule_or, record_of, view_of, open_demo, demo_play, demo_reveal,
  built, DemoCall, next_epoch, play_once, reveal_all, demo_step, demo_run,
}

-- The receipts, the rules and the records are one for one, within the limit, and nothing is revealed
-- while the epoch is open.
pub record InStep {T : Type 0} (max_plays : ℕ) (s : Demo T) : Type 0 where
  pub signed : length s.signed ≡ length s.plays
  pub played : length s.played ≡ length s.plays
  pub bounded : length s.plays ≤ max_plays
  pub secret : s.is_open ≡ true → s.reveal ≡ none

one_more :
    {A B : Type 0} (xs : List A) (ys : List B) (x : A) (y : B)
    → length xs ≡ length ys
    → length (xs ++ x ∷ []) ≡ length (ys ++ y ∷ [])
one_more xs ys x y h = ground (arith, length-append xs (x ∷ []), length-append ys (y ∷ []))

last_fits :
    {A : Type 0} (xs : List A) (x : A) (n : ℕ) → suc (length xs) ≤ n → length (xs ++ x ∷ []) ≤ n
last_fits xs x n h = ground (arith, length-append xs (x ∷ []))

same_state : {T : Type 0} (n : ℕ) (x s' : Demo T) → s' ≡ x → InStep n x → InStep n s'
same_state n x s' q v = rw q v

with_tee : {T : Type 0} (n : ℕ) (s : Demo T) (t : T) → InStep n s → InStep n (record s { tee = t })
with_tee n s t v = record {
  signed = v.signed;
  played = v.played;
  bounded = v.bounded;
  secret = v.secret;
}

module _ {T : Type 0} (sdk : Sdk) (tee : ReferenceTee T) (config : DemoConfig)
    (client_seed : String) where
  -- Opening an epoch keeps the demo in step: an open epoch stays, a new one starts empty.
  pub open_demo-InStep :
      (s : Demo T)
      → InStep config.max_plays s
      → InStep config.max_plays (open_demo sdk tee config client_seed s).1
  unfolding open_demo
  open_demo-InStep s v = elim (Bool-cases s.is_open) [
    | inl o ↦ same_state config.max_plays s _ (ground arith) v
    | inr c ↦ elim (Result-cases (tee.open_epoch s.tee).0) [
      | inl (e, q) ↦
          same_state config.max_plays (record s { tee = (tee.open_epoch s.tee).1 }) _ (ground arith)
            (with_tee config.max_plays s (tee.open_epoch s.tee).1 v)
      | inr (started, q) ↦
          same_state config.max_plays
            (record s {
              tee = (tee.open_epoch s.tee).1;
              epoch_id = started.0;
              seed_commit = started.1;
              plays = [];
              signed = [];
              played = [];
              reveal = none;
              is_open = true;
            })
            _ (ground arith)
            (record { signed = refl; played = refl; bounded = omega arith; secret = λ h. refl })
    ]
  ]

  -- A play keeps the demo in step, whether it is refused or recorded.
  pub demo_play-InStep :
      (chosen : Option Value) (s : Demo T)
      → InStep config.max_plays s
      → InStep config.max_plays (demo_play sdk tee config client_seed chosen s).1
  unfolding demo_play
  demo_play-InStep chosen s v =
      let rule = rule_or chosen config.rule in
      let after = (tee.play client_seed rule s.tee).1 in
      elim (Bool-cases s.is_open) [
        | inr c ↦ same_state config.max_plays s _ (ground arith) v
        | inl o ↦ elim (Bool-cases (leb config.max_plays (length s.plays))) [
          | inl full ↦ same_state config.max_plays s _ (ground arith) v
          | inr room ↦ elim (Result-cases (tee.play client_seed rule s.tee).0) [
            | inl (e, q) ↦
                same_state config.max_plays (record s { tee = after }) _ (ground arith)
                  (with_tee config.max_plays s after v)
            | inr (bet, q) ↦
                let new = record_of sdk tee config client_seed bet rule in
                same_state config.max_plays
                  (record s {
                    tee = after;
                    signed = s.signed ++ bet ∷ [];
                    played = s.played ++ rule ∷ [];
                    plays = s.plays ++ new ∷ [];
                  })
                  _ (ground arith)
                  (record {
                    signed = one_more s.signed s.plays bet new v.signed;
                    played = one_more s.played s.plays rule new v.played;
                    bounded = last_fits s.plays new config.max_plays (ground arith);
                    secret = v.secret;
                  })
          ]
        ]
      ]

  -- A reveal keeps the demo in step: the epoch is closed before anything is shown.
  pub demo_reveal-InStep :
      (s : Demo T)
      → InStep config.max_plays s
      → InStep config.max_plays (demo_reveal sdk tee config client_seed s).1
  unfolding demo_reveal
  demo_reveal-InStep s v = elim (Bool-cases s.is_open) [
    | inr c ↦ same_state config.max_plays s _ (ground arith) v
    | inl o ↦ elim (Bool-cases (leb 1 (length s.signed))) [
      | inr none_yet ↦ same_state config.max_plays s _ (ground arith) v
      | inl some_play ↦
          let after = (tee.close_epoch s.tee).1 in
          elim (Result-cases (tee.close_epoch s.tee).0) [
            | inl (e, q) ↦
                same_state config.max_plays (record s { tee = after }) _ (ground arith)
                  (with_tee config.max_plays s after v)
            | inr (closed, q) ↦
                let shut = record s { tee = after; is_open = false } in
                same_state config.max_plays
                  (record shut { reveal = some (view_of sdk tee config client_seed closed shut) }) _
                  (rw (o, some_play, q) refl)
                  (record {
                    signed = v.signed;
                    played = v.played;
                    bounded = v.bounded;
                    secret = λ h. absurd (ground arith);
                  })
          ]
    ]
  ]

  run-InStep :
      (cs : List DemoCall) (s : Demo T)
      → InStep config.max_plays s
      → InStep config.max_plays (demo_run sdk tee config client_seed cs s)
  run-InStep [] s v = v
  run-InStep (next_epoch ∷ cs) s v =
      run-InStep cs (demo_step sdk tee config client_seed next_epoch s) (open_demo-InStep s v)
  run-InStep (play_once rule ∷ cs) s v =
      run-InStep cs (demo_step sdk tee config client_seed (play_once rule) s)
        (demo_play-InStep rule s v)
  run-InStep (reveal_all ∷ cs) s v =
      run-InStep cs (demo_step sdk tee config client_seed reveal_all s) (demo_reveal-InStep s v)

  -- After any calls on a new demo the receipts, the rules and the records are one for one and
  -- within the limit, and nothing is revealed while the epoch is open.
  pub demo_run-InStep :
      (cs : List DemoCall) (t : T)
      → InStep config.max_plays (demo_run sdk tee config client_seed cs (built t))
  demo_run-InStep cs t = run-InStep cs (built t) (record {
    signed = refl;
    played = refl;
    bounded = omega arith;
    secret = λ h. absurd (ground arith);
  })

-- ===== src/Demo/Table/Ledger.antt =====
-- The chips of the table: what is staked and what is returned.
use foreseer.Base.{
  ℕ, ◌+◌, ◌≤◌, ◌≡◌, refl, ap, subst, ◌∙◌, Bool, true, false, Option, none, some, List, [], ◌∷◌,
  arith, ltb, inl, inr, Bool-cases,
}
use foreseer.Demo.Table.{
  stake_of, Spun, Pending, Table, TableEvent, spin_pressed, spin_answered, spin_failed, ball_landed,
  new_table, press_spin, answered_to, failed_to, returned_for, landed_to, table_step, table_run,
}

-- The state of the button: off while a spin is under way, of which there is one at most.
abbrev button : Option ℕ → Option Pending → Option Bool
button none none = some false
button none (some p) = some true
button (some s) none = some true
button (some s) (some p) = none

abbrev Covered : ℕ → Option ℕ → Type 0
Covered chips none = Unit {0}
Covered chips (some stake) = stake ≤ chips

-- The button is off while a spin is under way, and the stake that is asked for is covered.
pub record Banked (t : Table) : Type 0 where
  pub off : button t.asked t.pending ≡ some t.disabled
  pub enough : Covered t.chips t.asked

-- The chips that an event takes, and those that it gives.
abbrev taken_by : TableEvent → Table → ℕ
taken_by (spin_pressed typed) t = 0
taken_by (spin_answered spun) t = elim t.asked [ none ↦ 0 | some stake ↦ stake ]
taken_by spin_failed t = 0
taken_by ball_landed t = 0

abbrev given_by : TableEvent → Table → ℕ
given_by (spin_pressed typed) t = 0
given_by (spin_answered spun) t = 0
given_by spin_failed t = 0
given_by ball_landed t = elim t.pending [ none ↦ 0 | some p ↦ returned_for p ]

abbrev pub staked : List TableEvent → Table → ℕ
staked [] t = 0
staked (e ∷ es) t = taken_by e t + staked es (table_step e t)

abbrev pub returned : List TableEvent → Table → ℕ
returned [] t = 0
returned (e ∷ es) t = given_by e t + returned es (table_step e t)

same_table : (t t' : Table) → t' ≡ t → Banked t → Banked t'
same_table t t' p v = rw p v

idle-nothing :
    (asked : Option ℕ) (p : Option Pending)
    → button asked p ≡ some false
    → (asked ≡ none) × (p ≡ none)
idle-nothing none none h = (refl, refl)
idle-nothing none (some p) h = absurd (ground arith)
idle-nothing (some s) none h = absurd (ground arith)
idle-nothing (some s) (some p) h = absurd (ground arith)

press-Banked : (stake : ℕ) (t : Table) → Banked t → Banked (press_spin stake t)
unfolding press_spin
press-Banked stake t v = elim (Bool-cases t.disabled) [
  | inl busy ↦ same_table t _ (ground arith) v
  | inr idle ↦ elim (Bool-cases (ltb t.chips stake)) [
    | inl poor ↦ same_table t _ (ground arith) v
    | inr rich ↦
        let (a, b) = idle-nothing t.asked t.pending (v.off ∙ ap some idle) in
        same_table (record t { asked = some stake; disabled = true }) _ (ground arith)
          (record { off = rw b refl; enough = ground arith })
  ]
]

press-chips : (stake : ℕ) (t : Table) → (press_spin stake t).chips ≡ t.chips
unfolding press_spin
press-chips stake t = ground arith

asked-alone :
    (asked : Option ℕ) (stake : ℕ) (p : Option Pending) (d : Bool)
    → asked ≡ some stake
    → button asked p ≡ some d
    → (p ≡ none) × (d ≡ true)
asked-alone none stake p d q h = absurd (ground arith)
asked-alone (some s) stake none d q h = (refl, ground arith)
asked-alone (some s) stake (some p) d q h = absurd (ground arith)

pending-alone :
    (asked : Option ℕ) (p : Pending) (o : Option Pending) (d : Bool)
    → o ≡ some p
    → button asked o ≡ some d
    → asked ≡ none
pending-alone none p o d q h = refl
pending-alone (some s) p none d q h = absurd (ground arith)
pending-alone (some s) p (some x) d q h = absurd (ground arith)

-- A step of the table, with its account.
abbrev Accounted : TableEvent → Table → Table → Type 0
Accounted e t t' = Banked t' × (t'.chips + taken_by e t ≡ t.chips + given_by e t)

answered-Accounted :
    (spun : Spun) (asked : Option ℕ) (t : Table)
    → t.asked ≡ asked
    → Banked t
    → Accounted (spin_answered spun) t (answered_to spun asked t)
answered-Accounted spun none t q v = (v, rw q (omega arith))
answered-Accounted spun (some stake) t q v =
    let (p, d) = asked-alone t.asked stake t.pending t.disabled q v.off in
    let paid : stake ≤ t.chips = subst (Covered t.chips) q v.enough in
    (record { off = rw d refl; enough = tt }, rw q (omega arith))

failed-Accounted :
    (asked : Option ℕ) (t : Table)
    → t.asked ≡ asked
    → Banked t
    → Accounted spin_failed t (failed_to asked t)
failed-Accounted none t q v = (v, refl)
failed-Accounted (some stake) t q v =
    let (p, d) = asked-alone t.asked stake t.pending t.disabled q v.off in
    (record { off = rw p refl; enough = tt }, refl)

landed-Accounted :
    (o : Option Pending) (t : Table)
    → t.pending ≡ o
    → Banked t
    → Accounted ball_landed t (landed_to o t)
landed-Accounted none t q v = (v, rw q refl)
landed-Accounted (some p) t q v =
    let a = pending-alone t.asked p t.pending t.disabled q v.off in
    (record { off = rw a refl; enough = rw a tt }, rw q (omega arith))

step-Accounted : (e : TableEvent) (t : Table) → Banked t → Accounted e t (table_step e t)
unfolding table_step
step-Accounted (spin_pressed typed) t v =
    (press-Banked (stake_of typed) t v, ap (λ c. c + 0) (press-chips (stake_of typed) t))
step-Accounted (spin_answered spun) t v = answered-Accounted spun t.asked t refl v
step-Accounted spin_failed t v = failed-Accounted t.asked t refl v
step-Accounted ball_landed t v = landed-Accounted t.pending t refl v

run-Accounted :
    (es : List TableEvent) (t : Table)
    → Banked t
    → Banked (table_run es t) × ((table_run es t).chips + staked es t ≡ t.chips + returned es t)
run-Accounted [] t v = (v, refl)
run-Accounted (e ∷ es) t v =
    let (v1, c1) = step-Accounted e t v in
    let (v2, c2) = run-Accounted es (table_step e t) v1 in (v2, omega arith)

-- After any events at the table the button is off exactly while one spin is under way, its stake
-- is covered, and the chips with all stakes taken are 1000 and all that was returned.
pub table_run-chips :
    (es : List TableEvent)
    → Banked (table_run es new_table)
      × ((table_run es new_table).chips + staked es new_table ≡ 1000 + returned es new_table)
table_run-chips es = run-Accounted es new_table (record { off = refl; enough = tt })

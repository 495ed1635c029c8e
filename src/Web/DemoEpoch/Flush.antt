-- ===== src/Web/DemoEpoch/Flush.antt =====
-- When the promise settles, all that wait for it go on, and the hook is steady after it.
use foreseer.Base.{
  suc, ◌≡◌, refl, sym, ap, ◌∙◌, String, Bool, true, Option, some, List, [], ◌∷◌, arith, length, inl,
  inr, Bool-cases,
}
use foreseer.Json.{Value}
use foreseer.Sdk.{Sdk}
use foreseer.Web.DemoTee.{ReferenceTee, DemoConfig}
use foreseer.Web.DemoEpoch.{
  failed, ready_from, Loading, pending, fulfilled, rejected, is_settled, Waiter, observer, player,
  Hook, snapshot, resume_arm, resume_arms, play_all, flush,
}
use foreseer.Web.DemoEpoch.Steady.{
  same_hook, Steady, Quiet, same-Quiet, busy-ready_from, players, settle-Steady, shown, Idle,
  as_one,
}
use foreseer.Web.DemoEpoch.Plays.{play_on-Steady, play_all-waiting}

module _ {T : Type 0} where
  resume_arm-Quiet :
      (l : Loading) (s : Hook T)
      → s.loading ≡ l
      → is_settled l ≡ true
      → Quiet s
      → Quiet (resume_arm l s).1
  resume_arm-Quiet pending s q done v = absurd (ground arith)
  resume_arm-Quiet fulfilled s q done v = elim (Bool-cases s.alive) [
    | inr dead ↦ same-Quiet s _ (ground arith) v
    | inl live ↦
        same-Quiet
          (record s { armed = true; view = some (snapshot s.engine); phase = ready_from s.phase }) _
          (ground arith)
          (record {
            nobody = v.nobody;
            no_animation = v.no_animation;
            armed_late = λ h. ground (arith, q);
            still_busy = λ h a. absurd (ground (arith, busy-ready_from s.phase));
            fresh = λ h a. refl;
          })
  ]
  resume_arm-Quiet (rejected e) s q done v = elim (Bool-cases s.alive) [
    | inr dead ↦ same-Quiet s _ (ground arith) v
    | inl live ↦
        same-Quiet (record s { error = some e; phase = failed }) _ (ground arith)
          (record {
            nobody = v.nobody;
            no_animation = v.no_animation;
            armed_late = v.armed_late;
            still_busy = λ h a. ground arith;
            fresh = v.fresh;
          })
  ]

  resume_arm-armed :
      (l : Loading) (s : Hook T) → (resume_arm l s).0 ≡ true → (resume_arm l s).1.armed ≡ true
  resume_arm-armed pending s h = ground arith
  resume_arm-armed fulfilled s h = ground arith
  resume_arm-armed (rejected e) s h = ground arith

  resume_arm-keeps :
      (l : Loading) (s : Hook T)
      → ((resume_arm l s).1.busy ≡ s.busy)
        × ((resume_arm l s).1.loading ≡ s.loading)
        × (s.armed ≡ true → (resume_arm l s).1.armed ≡ true)
  resume_arm-keeps pending s = (refl, refl, λ h. h)
  resume_arm-keeps fulfilled s = (ground arith, ground arith, λ h. ground arith)
  resume_arm-keeps (rejected e) s = (ground arith, ground arith, λ h. ground arith)

  resume_arms-keeps :
      (ws : List Waiter) (s : Hook T)
      → ((resume_arms ws s).1.busy ≡ s.busy)
        × (length (resume_arms ws s).0 ≡ players ws)
        × (s.armed ≡ true → (resume_arms ws s).1.armed ≡ true)
  resume_arms-keeps [] s = (refl, refl, λ h. h)
  resume_arms-keeps (observer ∷ ws) s =
      let (b, n, a) = resume_arms-keeps ws (resume_arm s.loading s).1 in
      let (b1, l1, a1) = resume_arm-keeps s.loading s in (b ∙ b1, n, λ h. a (a1 h))
  resume_arms-keeps (player rule ∷ ws) s =
      let (b, n, a) = resume_arms-keeps ws (resume_arm s.loading s).1 in
      let (b1, l1, a1) = resume_arm-keeps s.loading s in (b ∙ b1, ap suc n, λ h. a (a1 h))

  abbrev AllGot : List (Option Value × Bool) → Hook T → Type 0
  AllGot [] s = Unit {0}
  AllGot ((rule, got) ∷ ps) s = (got ≡ true → s.armed ≡ true) × AllGot ps s

  resume_arms-Quiet :
      (ws : List Waiter) (s : Hook T)
      → is_settled s.loading ≡ true
      → Quiet s
      → Quiet (resume_arms ws s).1 × AllGot (resume_arms ws s).0 (resume_arms ws s).1
  resume_arms-Quiet [] s done v = (v, tt)
  resume_arms-Quiet (observer ∷ ws) s done v =
      let (b1, l1, a1) = resume_arm-keeps s.loading s in
      resume_arms-Quiet ws (resume_arm s.loading s).1 (rw l1 done)
        (resume_arm-Quiet s.loading s refl done v)
  resume_arms-Quiet (player rule ∷ ws) s done v =
      let (b1, l1, a1) = resume_arm-keeps s.loading s in
      let (b, n, a) = resume_arms-keeps ws (resume_arm s.loading s).1 in
      let (v', all) =
        resume_arms-Quiet ws (resume_arm s.loading s).1 (rw l1 done)
          (resume_arm-Quiet s.loading s refl done v) in
      (v', ((λ h. a (resume_arm-armed s.loading s h)), all))

  resume_arm-waiting : (l : Loading) (s : Hook T) → (resume_arm l s).1.waiting ≡ s.waiting
  resume_arm-waiting pending s = refl
  resume_arm-waiting fulfilled s = ground arith
  resume_arm-waiting (rejected e) s = ground arith

  resume_arms-waiting : (ws : List Waiter) (s : Hook T) → (resume_arms ws s).1.waiting ≡ s.waiting
  resume_arms-waiting [] s = refl
  resume_arms-waiting (observer ∷ ws) s = resume_arms-waiting ws _ ∙ resume_arm-waiting s.loading s
  resume_arms-waiting (player rule ∷ ws) s =
      resume_arms-waiting ws _ ∙ resume_arm-waiting s.loading s

module _ {T : Type 0} (sdk : Sdk) (tee : ReferenceTee T) (config : DemoConfig)
    (client_seed : String) where
  play_all-Steady :
      (ps : List (Option Value × Bool)) (s : Hook T)
      → Quiet s
      → length ps ≡ as_one s.busy
      → AllGot ps s
      → Steady (play_all sdk tee config client_seed ps s)
  play_all-Steady [] s v n all = settle-Steady s v (ground arith)
  play_all-Steady ((rule, got) ∷ []) s v n (has, all) =
      play_on-Steady sdk tee config client_seed rule got s v (ground arith) has
  play_all-Steady (p ∷ q ∷ ps) s v n all = absurd (ground arith)

  same_resumed :
      (ws : List Waiter) (s : Hook T)
      → ws ≡ []
      → play_all sdk tee config client_seed (resume_arms ws s).0 (resume_arms ws s).1 ≡ s
  same_resumed [] s p = refl
  same_resumed (w ∷ ws) s p = absurd (ground arith)

  -- After the promise is settled, nobody waits for it.
  pub flush-Steady : (s : Hook T) → Steady s → Steady (flush sdk tee config client_seed s)
  unfolding flush
  flush-Steady s v =
      let s0 : Hook T = record s { waiting = [] } in
      let r = resume_arms s.waiting s0 in
      elim (Bool-cases (is_settled s.loading)) [
        | inr waits ↦ same_hook s _ (ground arith) v
        | inl done ↦ elim (Bool-cases (shown s.animation)) [
          | inl runs ↦
              let (armed, nobody, phase) = v.animates runs in
              same_hook s0 _ (ground (arith, same_resumed s.waiting s0 nobody)) (record {
                one_play = ground (arith, v.one_play);
                armed_late = v.armed_late;
                animates = λ h. (armed, refl, phase);
                still_busy = v.still_busy;
                fresh = v.fresh;
              })
          | inr none_runs ↦
              let quiet : Quiet s0 = record {
                nobody = refl;
                no_animation = none_runs;
                armed_late = v.armed_late;
                still_busy = v.still_busy;
                fresh = λ h a. v.fresh h a none_runs;
              } in
              let (v', all) = resume_arms-Quiet s.waiting s0 done quiet in
              let (b, n, a) = resume_arms-keeps s.waiting s0 in
              same_hook (play_all sdk tee config client_seed r.0 r.1) _ (ground arith)
                (play_all-Steady r.0 r.1 v' (ground (arith, v.one_play)) all)
        ]
      ]

  pub flush-Idle : (s : Hook T) → Idle (flush sdk tee config client_seed s)
  unfolding flush
  flush-Idle s h =
      let s0 : Hook T = record s { waiting = [] } in
      let r = resume_arms s.waiting s0 in
      elim (Bool-cases (is_settled s.loading)) [
        | inr waits ↦ absurd (ground arith)
        | inl done ↦ ground (
          arith,
          play_all-waiting sdk tee config client_seed r.0 r.1,
          resume_arms-waiting s.waiting s0,
        )
      ]

  pub flush-nobody : (s : Hook T) → s.waiting ≡ [] → flush sdk tee config client_seed s ≡ s
  unfolding flush
  flush-nobody s p =
      let s0 : Hook T = record s { waiting = [] } in
      let same : s0 ≡ s = ap (λ w. record s { waiting = w }) (sym p) in
      elim (Bool-cases (is_settled s.loading)) [
        | inr waits ↦ ground arith
        | inl done ↦ ground (arith, same_resumed s.waiting s0 p, same)
      ]

-- ===== src/Demo/Recompute/Words.antt =====
-- The rounds of `draw` read the words of the digests one after the other, and stop at the first
-- word that is accepted.
use native.Mathlib.Nat.{mod-lt}
use foreseer.Base.{
  ℕ, zero, suc, ◌+◌, ◌*◌, ◌/◌, ◌%◌, ◌^◌, ◌≤◌, ◌<◌, ◌≡◌, refl, String, true, false, Option, none,
  some, List, [], ◌∷◌, ◌∙◌, arith, length, get_elem?, ltb, inl, inr, ◌==◌, nat_eq, Bool-cases,
  Option-cases,
}
use foreseer.Sdk.{Bytes}
use foreseer.Demo.Recompute.{read_u32, draw_limit, digest, draw_loop, draw}

get_elem?-some :
    {A : Type 0} (xs : List A) (i : ℕ) → i < length xs → (x : A) × (get_elem? xs i ≡ some x)
get_elem?-some [] i h = absurd (omega arith)
get_elem?-some (x ∷ xs) zero h = (x, refl)
get_elem?-some (x ∷ xs) (suc i) h = get_elem?-some xs i (omega arith)

read_u32-some :
    (buf : Bytes) (off : ℕ) → off + 3 < length buf → (x : ℕ) × (read_u32 buf off ≡ some x)
read_u32-some buf off h =
    let (a, p) = get_elem?-some buf off (omega arith) in
    let (b, q) = get_elem?-some buf (off + 1) (omega arith) in
    let (c, r) = get_elem?-some buf (off + 2) (omega arith) in
    let (d, s) = get_elem?-some buf (off + 3) (omega arith) in
    (a * 2 ^ 24 + b * 2 ^ 16 + c * 2 ^ 8 + d, rw (p, q, r, s) refl)

module _ (hmac : String → Bytes) (client_seed : String) (nonce : ℕ) where
  -- The `n`-th word of the digests, eight words each.
  abbrev pub word : ℕ → Option ℕ
  word n = read_u32 (digest hmac client_seed nonce (n / 8)) (4 * (n % 8))

  at_word : (n m x : ℕ) → n ≡ m → word n ≡ some x → word m ≡ some x
  at_word n m x p h = rw (← p) h

  -- The first word below the limit, from the `n`-th on.
  unfoldable pub first_accepted : ℕ → ℕ → ℕ → Option ℕ
  first_accepted range zero n = none
  first_accepted range (suc fuel) n = elim (word n) [
    | none ↦ none
    | some x ↦ elim (ltb x (draw_limit range)) [
      | true ↦ some (x % range)
      | false ↦ first_accepted range fuel (suc n)
    ]
  ]

  word-eq :
      (b j : ℕ) → j < 8 → word (8 * b + j) ≡ read_u32 (digest hmac client_seed nonce b) (4 * j)
  word-eq b j h =
      let p : (8 * b + j) / 8 ≡ b = omega arith in
      let q : (8 * b + j) % 8 ≡ j = omega arith in rw (p, q) refl

  -- One round on the buffer `b`, from its word `j`.
  inside :
      (range fuel b j : ℕ)
      → length (digest hmac client_seed nonce b) ≡ 32
      → j < 8
      → draw_loop hmac client_seed nonce range fuel b (digest hmac client_seed nonce b) (4 * j + 4)
        ≡ first_accepted range fuel (suc (8 * b + j))
      → draw_loop hmac client_seed nonce range
          (suc fuel)
          b
          (digest hmac client_seed nonce b)
          (4 * j)
        ≡ first_accepted range (suc fuel) (8 * b + j)
  unfolding draw_loop first_accepted
  inside range fuel b j size h rest =
      let more : (4 * j == length (digest hmac client_seed nonce b)) ≡ false = ground arith in
      let same = word-eq b j h in
      elim (Option-cases (read_u32 (digest hmac client_seed nonce b) (4 * j))) [
        | inl gone ↦ ground arith
        | inr (x, got) ↦ elim (Bool-cases (ltb x (draw_limit range))) [
          | inl accepted ↦ ground arith
          | inr rejected ↦ ground arith
        ]
      ]

  -- A buffer that is used up gives way to the next.
  refill :
      (range fuel b : ℕ)
      → length (digest hmac client_seed nonce b) ≡ 32
      → length (digest hmac client_seed nonce (suc b)) ≡ 32
      → draw_loop hmac client_seed nonce range (suc fuel) b (digest hmac client_seed nonce b) 32
        ≡ draw_loop hmac client_seed nonce range
            (suc fuel)
            (suc b)
            (digest hmac client_seed nonce (suc b))
            0
  unfolding draw_loop
  refill range fuel b size size' =
      let x = digest hmac client_seed nonce (suc b) in
      let used : (32 == length (digest hmac client_seed nonce b)) ≡ true = ground arith in
      let fresh : (0 == length (digest hmac client_seed nonce (suc b))) ≡ false = ground arith in
      let (w, p) = read_u32-some x 0 (omega arith) in
      elim (Bool-cases (ltb w (draw_limit range))) [
        | inl accepted ↦ ground arith
        | inr rejected ↦ ground arith
      ]

  -- A state of the loop, and the number of the word that it reads next.
  abbrev Agrees : ℕ → ℕ → ℕ → ℕ → ℕ → Type 0
  Agrees range fuel b off n =
      draw_loop hmac client_seed nonce range fuel b (digest hmac client_seed nonce b) off
      ≡ first_accepted range fuel n

  at_offset :
      (range fuel b off off' n n' : ℕ)
      → off ≡ off'
      → n ≡ n'
      → Agrees range fuel b off n
      → Agrees range fuel b off' n'
  at_offset range fuel b off off' n n' p q h = rw (← p, ← q) h

  draw_loop_lem :
      (range fuel b j : ℕ)
      → ((block : ℕ) → length (digest hmac client_seed nonce block) ≡ 32)
      → j ≤ 8
      → Agrees range fuel b (4 * j) (8 * b + j)
  unfolding draw_loop first_accepted
  draw_loop_lem range zero b j size h = refl
  draw_loop_lem range (suc fuel) b j size h = elim (Bool-cases (ltb j 8)) [
    | inl less ↦ inside range fuel b j (size b) (ground arith) (
        at_offset range fuel b (4 * suc j) (4 * j + 4) (8 * b + suc j) (suc (8 * b + j))
          (omega arith) (omega arith) (draw_loop_lem range fuel b (suc j) size (ground arith)))
    | inr full ↦
        let next = inside range fuel (suc b) 0 (size (suc b)) (omega arith) (
          at_offset range fuel (suc b) (4 * 1) (4 * 0 + 4) (8 * suc b + 1) (suc (8 * suc b + 0))
            (omega arith) (omega arith) (draw_loop_lem range fuel (suc b) 1 size (omega arith))) in
        at_offset range (suc fuel) b 32 (4 * j) (8 * suc b + 0) (8 * b + j) (ground arith)
          (ground arith) (refill range fuel b (size b) (size (suc b)) ∙ next)
  ]

  -- Equivalence.
  pub draw-first_accepted :
      (range fuel : ℕ)
      → ((block : ℕ) → length (digest hmac client_seed nonce block) ≡ 32)
      → draw hmac client_seed nonce range fuel ≡ first_accepted range fuel 0
  unfolding draw
  draw-first_accepted range fuel size = draw_loop_lem range fuel 0 0 size (omega arith)

  word-some :
      (n : ℕ)
      → ((block : ℕ) → length (digest hmac client_seed nonce block) ≡ 32)
      → (x : ℕ) × (word n ≡ some x)
  word-some n size =
      read_u32-some (digest hmac client_seed nonce (n / 8)) (4 * (n % 8))
        (omega (arith, size (n / 8)))

  first_accepted-some :
      (range n fuel k x : ℕ)
      → ((block : ℕ) → length (digest hmac client_seed nonce block) ≡ 32)
      → 0 < range
      → n < fuel
      → word (k + n) ≡ some x
      → ltb x (draw_limit range) ≡ true
      → (y : ℕ) × (first_accepted range fuel k ≡ some y) × (y < range)
  unfolding first_accepted
  first_accepted-some range n zero k x size r f p good = absurd (omega arith)
  first_accepted-some range zero (suc fuel) k x size r f p good =
      let here = at_word (k + 0) k x (omega arith) p in (x % range, ground arith, mod-lt x r)
  first_accepted-some range (suc n) (suc fuel) k x size r f p good =
      let (w, q) = word-some k size in
      elim (Bool-cases (ltb w (draw_limit range))) [
        | inl accepted ↦ (w % range, ground arith, mod-lt w r)
        | inr rejected ↦
            let (y, s, l) =
              first_accepted-some range n fuel (suc k) x size r (omega arith)
                (at_word (k + suc n) (suc k + n) x (omega arith) p) good in
            (y, ground arith, l)
      ]

  -- With digests of 32 bytes and a range above 0, if the word of some number is below the limit,
  -- then more rounds than that number are enough: the loop returns a draw, and it is below the
  -- range.
  pub draw-some :
      (range n fuel x : ℕ)
      → ((block : ℕ) → length (digest hmac client_seed nonce block) ≡ 32)
      → 0 < range
      → n < fuel
      → word n ≡ some x
      → x < draw_limit range
      → (y : ℕ) × (draw hmac client_seed nonce range fuel ≡ some y) × (y < range)
  draw-some range n fuel x size r f p good =
      let (y, q, l) =
        first_accepted-some range n fuel 0 x size r f (at_word n (0 + n) x (omega arith) p)
          (ground arith) in
      (y, draw-first_accepted range fuel size ∙ q, l)

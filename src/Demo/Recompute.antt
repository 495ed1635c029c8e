-- ===== src/Demo/Recompute.antt =====
-- demo/recompute.mjs: `draw`, which recomputes one draw from the revealed seed by rejection sampling.
-- createHmac("sha256", seed) is a parameter, as the bytes of the digest of a text.
pub mod Words
pub mod Fair
use Prim.Native.String.{◌++◌}
use foreseer.Base.{
  ℕ, zero, suc, ◌+◌, ◌-◌, ◌*◌, ◌%◌, ◌^◌, String, true, false, Option, none, some, List, length,
  get_elem?, ltb, ◌==◌, nat_eq, if◌then◌else◌,
}
use foreseer.Base.Text.{decimal}
use foreseer.Sdk.{Bytes}

-- Buffer.readUInt32BE, which throws past the end.
abbrev read_u32_of : Option ℕ → Option ℕ → Option ℕ → Option ℕ → Option ℕ
read_u32_of (some a) (some b) (some c) (some d) = some (a * 2 ^ 24 + b * 2 ^ 16 + c * 2 ^ 8 + d)
read_u32_of _ _ _ _ = none

abbrev pub read_u32 : Bytes → ℕ → Option ℕ
read_u32 buf off =
    read_u32_of (get_elem? buf off) (get_elem? buf (off + 1)) (get_elem? buf (off + 2))
      (get_elem? buf (off + 3))

-- The accepted words are those below the largest multiple of the range.
unfoldable pub draw_limit : ℕ → ℕ
draw_limit range = 2 ^ 32 - 2 ^ 32 % range

module _ (hmac : String → Bytes) (client_seed : String) (nonce : ℕ) where
  unfoldable pub digest : ℕ → Bytes
  digest block = hmac (client_seed ++ ":" ++ decimal nonce ++ ":" ++ decimal block)

  -- The rounds of the loop, `fuel` at most; `none` is the end of the fuel, or a throw.
  unfoldable pub draw_loop : ℕ → ℕ → ℕ → Bytes → ℕ → Option ℕ
  draw_loop range zero block buf off = none
  draw_loop range (suc fuel) block buf off =
      let used_up = off == length buf in
      let block' = if used_up then suc block else block in
      let buf' = if used_up then digest block' else buf in
      let off' = if used_up then 0 else off in
      elim (read_u32 buf' off') [
        | none ↦ none
        | some x ↦ elim (ltb x (draw_limit range)) [
          | true ↦ some (x % range)
          | false ↦ draw_loop range fuel block' buf' (off' + 4)
        ]
      ]

  unfoldable pub draw : ℕ → ℕ → Option ℕ
  draw range fuel = draw_loop range fuel 0 (digest 0) 0

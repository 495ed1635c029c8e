-- ===== src/Wallet/Prune.antt =====
-- `prune`: the maps of WalletSessions stay bounded, and a live entry is dropped for room only.
use foreseer.Base.{
  ℕ, zero, suc, ◌≤◌, ◌<◌, ◌≡◌, refl, String, some, [], ◌∷◌, arith, length, string_eq,
}
use foreseer.Base.JsMap.{JsMap, get, delete_first, length-delete_first-le}
use foreseer.Wallet.{Entry, map_cap, drop_expired, evict, prune}

length-evict-lt :
    (cap rounds : ℕ) (m : JsMap String Entry)
    → 0 < cap
    → length m ≤ rounds
    → length (evict cap rounds m) < cap
unfolding evict
length-evict-lt cap zero m p h = omega arith
length-evict-lt cap (suc rounds) m p h =
    ground (arith, length-delete_first-le m rounds h, length-evict-lt cap rounds (delete_first m) p)

-- After `prune` there is room for one more entry.
pub length-prune-lt : (now : ℕ) (m : JsMap String Entry) → length (prune now m) < map_cap
unfolding prune
length-prune-lt now m =
    let live = drop_expired now m in
    length-evict-lt map_cap (length live) live (omega arith) (omega arith)

length-drop_expired-le : (now : ℕ) (m : JsMap String Entry) → length (drop_expired now m) ≤ length m
unfolding drop_expired
length-drop_expired-le now [] = omega arith
length-drop_expired-le now ((k, e) ∷ m) = ground (arith, length-drop_expired-le now m)

get-drop_expired :
    (now : ℕ) (m : JsMap String Entry) (key : String) (entry : Entry)
    → get m key ≡ some entry
    → now ≤ entry.expires
    → get (drop_expired now m) key ≡ some entry
unfolding get drop_expired
get-drop_expired now [] key entry h l = h
get-drop_expired now ((k, e) ∷ m) key entry h l = ground (arith, get-drop_expired now m key entry)

evict-lt : (cap rounds : ℕ) (m : JsMap String Entry) → length m < cap → evict cap rounds m ≡ m
unfolding evict
evict-lt cap zero m h = refl
evict-lt cap (suc rounds) m h = ground arith

-- A map below its cap loses expired entries only.
pub get-prune :
    (now : ℕ) (m : JsMap String Entry) (key : String) (entry : Entry)
    → length m < map_cap
    → get m key ≡ some entry
    → now ≤ entry.expires
    → get (prune now m) key ≡ some entry
unfolding prune
get-prune now m key entry b h l =
    let live = drop_expired now m in
    rw (evict-lt map_cap (length live) live (omega (arith, length-drop_expired-le now m)))
      (get-drop_expired now m key entry h l)

-- ===== src/Json.antt =====
-- Parsed JSON as the handlers receive it (a body of type `unknown`), and the property reads
-- `body?.name` of server/src/controllers.ts. `undefined` stands for an absent value.
use foreseer.Base.{String, Bool, false, leb, ◌==◌, string_eq, if◌then◌else◌, ◌^◌, ◌-◌}
use foreseer.Base.Int.{ℤ, abs_ℕ}

-- A number is an integer or `fraction`; the handlers only ask for safe integers.
mutual
  pub data Value : Type 0 where
    undefined null fraction : Value
    boolean : Bool → Value
    integer : ℤ → Value
    string : String → Value
    array : Items → Value
    object : Fields → Value

  pub data Items : Type 0 where
    nil : Items
    cons : Value → Items → Items

  pub data Fields : Type 0 where
    end : Fields
    field : String → Value → Fields → Fields

abbrev pub get_field : Fields → String → Value
get_field end name = undefined
get_field (field k v rest) name = let r = get_field rest name in if k == name then v else r

-- `value?.name`: a value that is no object has none of the properties that the handlers read.
abbrev pub get : Value → String → Value
get (object fields) name = get_field fields name
get _ name = undefined

-- Number.isSafeInteger.
abbrev pub is_safe_integer : Value → Bool
is_safe_integer (integer z) = leb (abs_ℕ z) (2 ^ 53 - 1)
is_safe_integer _ = false

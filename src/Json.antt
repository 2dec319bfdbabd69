-- ===== src/Json.antt =====
-- The values that the processor receives: what JSON.parse or the OTLP decoders return.
pub mod Equal
use smpp_telemetry_platform.Base.{
  ℕ, zero, String, Bool, true, false, not, List, [], ◌∷◌, leb, ltb, str_eq, if◌then◌else◌, ◌==◌,
}

-- A double: an integral one by its sign and size, another finite one by a number that tells it
-- apart. `infinite true` is the positive infinity.
pub data Number : Type 0 where
  pos : ℕ → Number
  negsuc : ℕ → Number
  other : ℕ → Number
  infinite : Bool → Number
  nan : Number

mutual
  pub data Value : Type 0 where
    undefined : Value
    null : Value
    bool : Bool → Value
    num : Number → Value
    str : String → Value
    arr : Items → Value
    obj : Fields → Value

  pub data Items : Type 0 where
    cons : Value → Items → Items
    nil : Items

  pub data Fields : Type 0 where
    field : String → Value → Fields → Fields
    end : Fields

-- `object[key]`; the keys of an object are distinct, so the first is the only one.
unfoldable pub get : Fields → String → Value
get end key = undefined
get (field k v fs) key = if str_eq k key then v else get fs key

-- `key in object`
unfoldable pub has_key : Fields → String → Bool
has_key end key = false
has_key (field k v fs) key = if str_eq k key then true else has_key fs key

-- `Object.keys(object)`
unfoldable pub keys : Fields → List String
keys end = []
keys (field k v fs) = k ∷ keys fs

abbrev pub is_undefined : Value → Bool
is_undefined undefined = true
is_undefined _ = false

-- `value == null`
abbrev pub is_nullish : Value → Bool
is_nullish undefined = true
is_nullish null = true
is_nullish _ = false

-- `a ?? b`
abbrev pub coalesce : Value → Value → Value
coalesce undefined b = b
coalesce null b = b
coalesce a b = a

-- `Boolean(value)`; zero and NaN are false, and so is the empty text.
abbrev pub truthy : Value → Bool
truthy undefined = false
truthy null = false
truthy (bool b) = b
truthy (num (pos zero)) = false
truthy (num nan) = false
truthy (str s) = not (str_eq s "")
truthy _ = true

abbrev pub is_finite : Number → Bool
is_finite (infinite _) = false
is_finite nan = false
is_finite _ = true

abbrev pub max_safe : ℕ
max_safe = 9007199254740991

-- `Number.isSafeInteger`
abbrev pub is_safe_integer : Number → Bool
is_safe_integer (pos n) = leb n max_safe
is_safe_integer (negsuc n) = ltb n max_safe
is_safe_integer _ = false

same_number : Number → Number → Bool
same_number (pos a) (pos b) = a == b
same_number (negsuc a) (negsuc b) = a == b
same_number (other a) (other b) = a == b
same_number (infinite true) (infinite true) = true
same_number (infinite false) (infinite false) = true
same_number _ _ = false

-- `a === b`. Two places of one parsed value hold distinct arrays and objects.
unfoldable pub strict_eq : Value → Value → Bool
unfolding same_number
strict_eq undefined undefined = true
strict_eq null null = true
strict_eq (bool true) (bool true) = true
strict_eq (bool false) (bool false) = true
strict_eq (num a) (num b) = same_number a b
strict_eq (str a) (str b) = str_eq a b
strict_eq _ _ = false

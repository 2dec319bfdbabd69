-- ===== src/Validation/Payload.antt =====
-- `scan` of telemetry-processor/src/packages/validation/validation.ts: the limits of an envelope and
-- what it must not hold. The scan counts its nodes in a state, which is passed on.
use smpp_telemetry_platform.Base.{
  ℕ, suc, ◌+◌, ◌*◌, ◌-◌, Bool, true, false, not, ◌&&◌, ◌||◌, String, List, [], ◌∷◌, ◌++◌, leb,
  str_eq, ◌==◌, length,
}
use smpp_telemetry_platform.Base.Text.{codes, text_length}
use smpp_telemetry_platform.Base.Pattern.{
  Piece, one, many, maybe, boundary, not_ahead, is_digit_code, is_lower, is_space, is_any, literal,
  finds, folded,
}
use smpp_telemetry_platform.Base.Result.{Result, Done, ok, ◌>>=◌, ◌>>◌, require}
use smpp_telemetry_platform.Json.{
  Value, Items, Fields, undefined, null, bool, num, str, arr, obj, nil, cons, end, field, pos,
  max_safe, keys,
}

-- `ValidationLimits`, but for the bytes of the event
pub record Limits : Type 0 where
  pub max_depth : ℕ
  pub max_nodes : ℕ
  pub max_string_length : ℕ
  pub max_array_length : ℕ
  pub max_object_properties : ℕ

abbrev pub default_limits : Limits
default_limits = record {
  max_depth = 12;
  max_nodes = 5000;
  max_string_length = 16384;
  max_array_length = 1000;
  max_object_properties = 500;
}

-- FORBIDDEN_KEY, on the folded key
abbrev pub forbidden_keys : List (List Piece)
forbidden_keys =
    (literal "authorization" ++ not_ahead (codes "contexthash") ∷ [])
    ∷ literal "cookie"
    ∷ literal "password"
    ∷ literal "passwd"
    ∷ (literal "api" ++ maybe is_any ∷ literal "key")
    ∷ literal "secret"
    ∷ (literal "private" ++ maybe is_any ∷ literal "key")
    ∷ (literal "database" ++ maybe is_any ∷ literal "url")
    ∷ (literal "connection" ++ maybe is_any ∷ literal "string")
    ∷ literal "token"
    ∷ literal "jwt"
    ∷ literal "stack"
    ∷ literal "cause"
    ∷ (literal "raw" ++ maybe is_any ∷ literal "input")
    ∷ (literal "raw" ++ maybe is_any ∷ literal "answer")
    ∷ (literal "adapter" ++ maybe is_any ∷ literal "payload")
    ∷ []

-- `[A-Z ]`, folded
abbrev is_banner : ℕ → Bool
is_banner c = is_lower c || c == 32

-- `[A-Za-z0-9._~+\/-]`, folded
abbrev is_token : ℕ → Bool
is_token c =
    is_lower c
    || is_digit_code c
    || c == b'.'
    || c == b'_'
    || c == b'~'
    || c == b'+'
    || c == b'/'
    || c == b'-'

abbrev not_space : ℕ → Bool
not_space c = not (is_space c)

-- `://[^\s]+:[^\s]+@`
abbrev credentials : List Piece
credentials =
    literal "://"
    ++ one not_space ∷ many not_space ∷ literal ":"
    ++ one not_space ∷ many not_space ∷ literal "@"

-- FORBIDDEN_VALUE, on the folded text
abbrev pub forbidden_values : List (List Piece)
forbidden_values =
    (literal "-----begin " ++ many is_banner ∷ literal "private key-----")
    ∷ (boundary ∷ literal "bearer"
        ++ one is_space ∷ many is_space ∷ one is_token ∷ many is_token ∷ many (λ c. c == b'=') ∷ [])
    ∷ (literal "postgres" ++ credentials)
    ∷ (literal "mysql" ++ credentials)
    ∷ (literal "mongodb" ++ credentials)
    ∷ (literal "mongodb+srv" ++ credentials)
    ∷ []

unfoldable pub is_sensitive_key : String → Bool
unfolding finds
is_sensitive_key key = finds forbidden_keys (folded key)

unfoldable pub is_sensitive_value : String → Bool
unfolding finds
is_sensitive_value text = finds forbidden_values (folded text)

unfoldable pub only_digits : List ℕ → Bool
only_digits [] = true
only_digits (c ∷ cs) = is_digit_code c && only_digits cs

-- `/^(0|[1-9][0-9]{0,18})$/`
unfoldable pub is_counter : List ℕ → Bool
unfolding only_digits
is_counter [] = false
is_counter (c ∷ []) = is_digit_code c
is_counter (c ∷ d ∷ cs) =
    is_digit_code c && not (c == b'0') && only_digits (d ∷ cs) && leb (length cs) 17

unfoldable pub decimal : ℕ → List ℕ → ℕ
decimal acc [] = acc
decimal acc (c ∷ cs) = decimal (10 * acc + (c - b'0')) cs

unfoldable pub counter_fits : Value → Bool
unfolding is_counter decimal
counter_fits (num (pos n)) = leb n max_safe
counter_fits (str s) = is_counter (codes s) && leb (decimal 0 (codes s)) 9223372036854775807
counter_fits _ = false

-- `fencingCounter`
unfoldable pub fencing_counter : String → Value → Bool
unfolding counter_fits
fencing_counter key v = str_eq key "fencingToken" && counter_fits v

unfoldable pub item_count : Items → ℕ
item_count nil = 0
item_count (cons v items) = suc (item_count items)

-- the checks of a value itself
unfoldable pub scan_node : Limits → Value → Done
unfolding item_count
scan_node limits (str s) = do
  require (leb (text_length s) limits.max_string_length) "STRING_TOO_LONG"
  require (not (is_sensitive_value s)) "SENSITIVE_VALUE_DETECTED"
scan_node limits (arr items) =
    require (leb (item_count items) limits.max_array_length) "ARRAY_TOO_LONG"
scan_node limits (obj fields) =
    require (leb (length (keys fields)) limits.max_object_properties) "OBJECT_TOO_WIDE"
scan_node limits _ = ok tt

-- the node itself: its depth, its number, and its own checks
unfoldable pub enter : Limits → Value → ℕ → ℕ → Result ℕ
unfolding scan_node
enter limits v depth nodes = do
  require (leb depth limits.max_depth) "PAYLOAD_TOO_DEEP"
  require (leb (suc nodes) limits.max_nodes) "PAYLOAD_TOO_COMPLEX"
  scan_node limits v
  ok (suc nodes)

-- a member: its key
unfoldable pub admit_key : String → Value → Done
unfolding fencing_counter
admit_key key v =
    require (not (is_sensitive_key key && not (fencing_counter key v))) "SENSITIVE_KEY_DETECTED"

-- `scan`, from the number of nodes before to the number after
unfoldable mutual
  pub scan : Limits → Value → ℕ → ℕ → Result ℕ
  scan limits (arr items) depth nodes =
      enter limits (arr items) depth nodes >>= λ n. scan_items limits items (suc depth) n
  scan limits (obj fields) depth nodes =
      enter limits (obj fields) depth nodes >>= λ n. scan_fields limits fields (suc depth) n
  scan limits undefined depth nodes = enter limits undefined depth nodes
  scan limits null depth nodes = enter limits null depth nodes
  scan limits (bool b) depth nodes = enter limits (bool b) depth nodes
  scan limits (num n) depth nodes = enter limits (num n) depth nodes
  scan limits (str s) depth nodes = enter limits (str s) depth nodes

  pub scan_items : Limits → Items → ℕ → ℕ → Result ℕ
  scan_items limits nil depth nodes = ok nodes
  scan_items limits (cons v items) depth nodes =
      scan limits v depth nodes >>= λ n. scan_items limits items depth n

  pub scan_fields : Limits → Fields → ℕ → ℕ → Result ℕ
  scan_fields limits end depth nodes = ok nodes
  scan_fields limits (field key v fields) depth nodes =
      admit_key key v >> (scan limits v depth nodes >>= λ n. scan_fields limits fields depth n)

-- ===== src/State/Table.antt =====
-- `get`, `operation`, `transaction` and `observeTarget` of
-- telemetry-processor/src/packages/durable-state/worker.ts.
use smpp_telemetry_platform.Base.{
  ℕ, ◌+◌, ◌-◌, Bool, true, false, not, ◌&&◌, String, List, [], ◌∷◌, Option, none, some, str_eq,
  if◌then◌else◌,
}
use smpp_telemetry_platform.Base.Result.{Result, ok, err, ◌>>=◌, some_or}
use smpp_telemetry_platform.Json.{
  Value, undefined, null, num, obj, field, end, Number, pos, negsuc, is_safe_integer, coalesce,
  is_undefined, str,
}
use smpp_telemetry_platform.State.{
  Platform, Entry, Usage, State, StateOperation, put, delete, check, increment,
}

-- the row of a namespace and a key: the two are the table's primary key
unfoldable pub at_key : String → String → Entry → Bool
at_key ns k e = str_eq e.namespace ns && str_eq e.key k

unfoldable pub text_at : String → String → List Entry → Option String
text_at ns k [] = none
text_at ns k (e ∷ es) = if at_key ns k e then some e.text else text_at ns k es

-- INSERT … ON CONFLICT DO UPDATE SET value
unfoldable pub upsert : String → String → String → List Entry → List Entry
upsert ns k text [] = record { namespace = ns; key = k; text = text } ∷ []
upsert ns k text (e ∷ es) =
    if at_key ns k e
    then record { namespace = e.namespace; key = e.key; text = text } ∷ es
    else e ∷ upsert ns k text es

-- DELETE FROM state_kv
unfoldable pub remove : String → String → List Entry → List Entry
remove ns k [] = []
remove ns k (e ∷ es) = if at_key ns k e then es else e ∷ remove ns k es

-- the row of a namespace, with nothing in it when there is no row
unfoldable pub usage_of : List Usage → String → ℕ × ℕ
usage_of [] ns = (0, 0)
usage_of (u ∷ us) ns = if str_eq u.namespace ns then (u.bytes, u.entries) else usage_of us ns

-- `Number(prior?.bytes ?? 0)`
unfoldable pub prior_bytes : (String → ℕ) → Option String → ℕ
prior_bytes size none = 0
prior_bytes size (some text) = size text

-- `prior === undefined ? 1 : 0`
unfoldable pub fresh : Option String → ℕ
fresh none = 1
fresh (some text) = 0

-- The upsert of a usage row. The table's difference `added - removed` has a sign; the invariant
-- of the module Accounts is that the sum is not negative.
unfoldable pub account : String → ℕ → ℕ → ℕ → List Usage → List Usage
account ns added removed rows [] =
    record { namespace = ns; bytes = added - removed; entries = rows } ∷ []
account ns added removed rows (u ∷ us) =
    if str_eq u.namespace ns
    then record {
      namespace = u.namespace;
      bytes = u.bytes + added - removed;
      entries = u.entries + rows;
    }
      ∷ us
    else u ∷ account ns added removed rows us

-- UPDATE state_namespace_usage SET bytes=bytes-?, entries=entries-1
unfoldable pub discount : String → ℕ → List Usage → List Usage
discount ns removed [] = []
discount ns removed (u ∷ us) =
    if str_eq u.namespace ns
    then record { namespace = u.namespace; bytes = u.bytes - removed; entries = u.entries - 1 } ∷ us
    else u ∷ discount ns removed us

-- the same tables but for the key-value table and its usage
unfoldable pub with_table : State → List Entry → List Usage → State
with_table s kv usage = record {
  kv = kv;
  usage = usage;
  frames = s.frames;
  kinds = s.kinds;
  segments = s.segments;
}

unfoldable pub same_text : Option String → Option String → Bool
same_text none none = true
same_text (some a) (some b) = str_eq a b
same_text _ _ = false

-- `op.amount ?? 1`
unfoldable pub amount_or_one : Option Number → Number
amount_or_one none = pos 1
amount_or_one (some n) = n

-- the number that a value is, where it is one
unfoldable pub number_of : Value → Option Number
number_of (num n) = some n
number_of _ = none

-- `next < 0`, of a safe integer
unfoldable pub is_negative : Number → Bool
is_negative (negsuc n) = true
is_negative _ = false

unfoldable pub namespace_usage : State → String → ℕ × ℕ
namespace_usage s ns = usage_of s.usage ns

module _ (p : Platform) where
  -- the value of a row that is there or not
  unfoldable pub parsed : Option String → Value
  parsed none = undefined
  parsed (some text) = p.parse text

  -- `get`
  unfoldable pub lookup : State → String → String → Value
  unfolding parsed
  lookup s ns k = parsed (text_at ns k s.kv)

  -- what `put` writes, once the value has a text
  unfoldable pub write : String → String → String → State → State
  unfolding with_table
  write ns k text s =
      let prior = text_at ns k s.kv in
      with_table s (upsert ns k text s.kv)
        (account ns (p.byte_length text) (prior_bytes p.byte_length prior) (fresh prior) s.usage)

  unfoldable pub put_value : String → String → Value → State → Result (State × Value)
  put_value ns k v s =
      some_or "STATE_VALUE_INVALID" (p.stringify v) >>= λ text. ok (write ns k text s, null)

  -- what `delete` takes from the usage: nothing, if there was no row
  unfoldable pub discount_prior : String → Option String → List Usage → List Usage
  unfolding discount
  discount_prior ns none us = us
  discount_prior ns (some text) us = discount ns (p.byte_length text) us

  unfoldable pub erase : String → String → State → State
  unfolding discount_prior with_table
  erase ns k s = with_table s (remove ns k s.kv) (discount_prior ns (text_at ns k s.kv) s.usage)

  unfoldable pub increment_value :
      String → String → Number → Number → State → Result (State × Value)
  increment_value ns k current amount s =
      let next = p.plus current amount in
      if is_safe_integer current && is_safe_integer next && not (is_negative next)
      then (put_value ns k (num next) s >>= λ r. ok (r.0, num next))
      else err "STATE_COUNTER_INVALID"

  unfoldable pub apply : StateOperation → State → Result (State × Value)
  unfolding put_value erase increment_value
  apply (put ns k v) s = put_value ns k v s
  apply (delete ns k) s = ok (erase ns k s, null)
  apply (check ns k expected) s =
      if same_text (p.stringify (coalesce (lookup s ns k) null)) (p.stringify expected)
      then ok (s, null)
      else err "STATE_COMPARE_FAILED"
  apply (increment ns k amount) s =
      some_or "STATE_COUNTER_INVALID" (number_of (coalesce (lookup s ns k) (num (pos 0))))
      >>= λ current. increment_value ns k current (amount_or_one amount) s

  unfoldable pub namespace_of : StateOperation → String
  namespace_of (put ns k v) = ns
  namespace_of (delete ns k) = ns
  namespace_of (check ns k v) = ns
  namespace_of (increment ns k a) = ns

  unfoldable pub operation : StateOperation → State → Result (State × Value)
  unfolding apply namespace_of
  operation op s = if str_eq (namespace_of op) "" then err "STATE_KEY_INVALID" else apply op s

  -- `operations.map(operation)` in a transaction
  unfoldable pub transaction : List StateOperation → State → Result (State × List Value)
  transaction [] s = ok (s, [])
  transaction (op ∷ ops) s =
      operation op s >>= λ r. (transaction ops r.0 >>= λ t. ok (t.0, r.1 ∷ t.1))

  -- `observeTarget`
  unfoldable pub observe_target : String → String → State → Result State
  unfolding operation
  observe_target key now s =
      if is_undefined (lookup s "target" key) && is_undefined (lookup s "observed_target" key)
      then (operation (put "observed_target" key (obj (field "observedAt" (str now) end))) s
          >>= λ r. (operation (increment "wal" "protectionRevision" none) r.0 >>= λ t. ok t.0))
      else ok s

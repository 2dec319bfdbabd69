-- ===== src/Generation.antt =====
-- `refreshGenerationLease` and `assertGenerationWritable` of
-- telemetry-processor/src/packages/exporters/generation-lifecycle.ts, over the durable state.
pub mod Renewed
use smpp_telemetry_platform.Base.{
  ℕ, max, ◌+◌, Bool, true, false, not, ◌&&◌, String, Option, none, some, [], ◌∷◌, str_eq,
  if◌then◌else◌,
}
use smpp_telemetry_platform.Base.Result.{Result, Done, ok, ◌>>=◌, require, some_or}
use smpp_telemetry_platform.Query.Urn.{◌⋯◌}
use smpp_telemetry_platform.Canonical.Hash.{set}
use smpp_telemetry_platform.Json.{
  Value, Fields, undefined, null, str, obj, end, get, coalesce, truthy, strict_eq,
}
use smpp_telemetry_platform.State.{Platform, State, put, check}
use smpp_telemetry_platform.State.Table.{lookup, transaction}

-- `generationKey`
unfoldable pub generation_key : String → String → String → String
generation_key target generation epoch = target ⋯ "/" ⋯ generation ⋯ "/" ⋯ epoch

abbrev pub lifecycles : String
lifecycles = "generation:lifecycle"

-- the fields of `previous ?? {}`
unfoldable pub fields_of : Value → Fields
fields_of (obj fs) = fs
fields_of _ = end

unfoldable pub is_active : Value → Bool
unfolding fields_of
is_active lifecycle = strict_eq (get (fields_of lifecycle) "status") (str "active")

-- a lifecycle is there and is not active
unfoldable pub is_inactive : Value → Bool
unfolding is_active
is_inactive lifecycle = truthy lifecycle && not (is_active lifecycle)

-- `Date.parse` of a member, which is a text by its type
unfoldable pub time_of : (String → Option ℕ) → Value → Option ℕ
time_of date_parse (str text) = date_parse text
time_of date_parse _ = none

-- the members that the renewed lifecycle has, whatever it had before
unfoldable pub renewed : String → String → String → String → String → Value → Value
unfolding fields_of set
renewed target generation epoch now until previous = obj (
    set "updatedAt" (str now) (
      set "readableUntil" (str until) (
        set "status" (str "active") (
          set "walEpoch" (str epoch) (
            set "generation" (str generation)
              (set "targetId" (str target) (fields_of previous)))))))

unfoldable pub swap_lease : Platform → String → Value → Value → State → Result (State × Value)
swap_lease p key previous next s =
    transaction p (check lifecycles key (coalesce previous null) ∷ put lifecycles key next ∷ []) s
    >>= λ r. ok (r.0, next)

unfoldable pub assert_generation_writable : Platform → String → String → String → State → Done
unfolding is_inactive
assert_generation_writable p target generation epoch s =
    require (not (is_inactive (lookup p s lifecycles (generation_key target generation epoch))))
      "GENERATION_NOT_ACTIVE"

-- `date_parse` is `Date.parse`, none for its NaN, and `iso` is `toISOString` of the time, none where
-- the time is past the largest date
module _ (p : Platform) (date_parse : String → Option ℕ) (iso : ℕ → Option String) where
  -- an active or a new lifecycle; the transaction runs on the state of its own moment
  unfoldable pub extend : String → String → String → String → Value → State → Result (State × Value)
  unfolding time_of renewed swap_lease
  extend target generation epoch now previous later = do
    old ←
        some_or "Invalid time value"
          (time_of date_parse (coalesce (get (fields_of previous) "readableUntil") (str now)))
    time ← some_or "Invalid time value" (date_parse now)
    until ← some_or "Invalid time value" (iso (max old (time + 600000)))
    swap_lease p (generation_key target generation epoch) previous
        (renewed target generation epoch now until previous) later

  -- the lifecycle is read of one state, and other requests may run before the transaction
  unfoldable pub refresh_generation_lease :
      String → String → String → String → State → State → Result (State × Value)
  unfolding extend is_inactive
  refresh_generation_lease target generation epoch now s later =
      let previous = lookup p s lifecycles (generation_key target generation epoch) in
      if is_inactive previous
      then ok (later, previous)
      else extend target generation epoch now previous later

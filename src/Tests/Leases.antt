-- ===== src/Tests/Leases.antt =====
-- The lease of a generation, at a concrete state.
use smpp_telemetry_platform.Base.{
  ℕ, ◌≡◌, refl, false, String, Option, some, [], ◌∷◌, str_eq, if◌then◌else◌,
}
use smpp_telemetry_platform.Json.{Value, Fields, Number, str, obj, field, end, get, strict_eq}
use smpp_telemetry_platform.State.{Platform, State}
use smpp_telemetry_platform.State.Table.{lookup, text_at, at_key}
use smpp_telemetry_platform.Generation.{
  lifecycles, generation_key, is_inactive, refresh_generation_lease,
}
use smpp_telemetry_platform.Generation.Renewed.{Refreshing, refresh_generation_lease-Refreshing}

abbrev stored_lifecycle : Value
stored_lifecycle = obj (field "status" (str "active") (field "readableUntil" (str "later") end))

abbrev one_text : Value → Option String
one_text v = some "lifecycle"

abbrev read_lifecycle : String → Value
read_lifecycle text = stored_lifecycle

abbrev nine : String → ℕ
nine text = 9

abbrev left_number : Number → Number → Number
left_number a b = a

abbrev platform : Platform
platform = record {
  stringify = one_text;
  parse = read_lifecycle;
  byte_length = nine;
  plus = left_number;
}

abbrev times : String → Option ℕ
times text = if str_eq text "later" then some 900000 else some 1000

abbrev one_date : ℕ → Option String
one_date time = some "until"

abbrev leased : State
leased = record {
  kv = record { namespace = "generation:lifecycle"; key = "t/g/e"; text = "lifecycle" } ∷ [];
  usage = record { namespace = "generation:lifecycle"; bytes = 9; entries = 1 } ∷ [];
  frames = [];
  kinds = [];
  segments = [];
}

every_text : (fs : Fields) → (text : String) × (platform.stringify (obj fs) ≡ some text)
every_text fs = ("lifecycle", refl)

-- the stored lifecycle is active, and it is still there when the transaction runs
refresh_generation_lease-Refreshing_example :
    let key = generation_key "t" "g" "e" in
    Refreshing platform times one_date leased key "now"
      (lookup platform leased lifecycles key)
      (refresh_generation_lease platform times one_date "t" "g" "e" "now" leased leased)
refresh_generation_lease-Refreshing_example =
    refresh_generation_lease-Refreshing platform times one_date every_text "t" "g" "e" "now" leased
      leased

-- the stored lifecycle is not an inactive one
leased-is_active : is_inactive (lookup platform leased lifecycles "t/g/e") ≡ false
unfolding lookup text_at at_key is_inactive strict_eq get
leased-is_active = refl

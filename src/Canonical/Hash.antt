-- ===== src/Canonical/Hash.antt =====
-- `calculateProviderOpsRecordHash` of telemetry-processor/src/packages/canonical/canonical.ts:
-- what the record hash covers.
use smpp_telemetry_platform.Base.{
  ◌≡◌, refl, arith, ◌⊎◌, ◌↔◌, String, true, false, List, [], ◌∷◌, if◌then◌else◌, str_eq, eq_iff, ap,
  Bool-cases, inl, inr,
}
use smpp_telemetry_platform.Base.Text.{one_of}
use smpp_telemetry_platform.Base.Result.{Result, ok, ◌>>=◌}
use smpp_telemetry_platform.Json.{Value, Fields, obj, end, field, get, undefined}
use smpp_telemetry_platform.Canonical.{Printer, canonicalize}

abbrev pub excluded : List String
excluded =
    "recordHash" ∷ "emittedAt" ∷ "instanceId" ∷ "exportRetryCount" ∷ "collectorTimestamp"
    ∷ "exporterHost" ∷ []

-- `Object.fromEntries(Object.entries(envelope).filter(([key]) => !excluded.has(key)))`
unfoldable hashed_fields : Fields → Fields
hashed_fields end = end
hashed_fields (field k v fs) =
    if one_of excluded k then hashed_fields fs else field k v (hashed_fields fs)

-- `object[key] = value`
unfoldable pub set : String → Value → Fields → Fields
set key v end = field key v end
set key v (field k w fs) = if str_eq k key then field k v fs else field k w (set key v fs)

module _ (p : Printer) (sha256 : String → String) where
  unfoldable pub sha256_canonical : Value → Result String
  sha256_canonical v = canonicalize p v >>= λ t. ok (sha256 t)

  unfoldable pub record_hash : Fields → Result String
  unfolding sha256_canonical hashed_fields
  record_hash envelope = sha256_canonical (obj (hashed_fields envelope))

hashed_fields-set :
    (key : String) (v : Value) (fs : Fields)
    → one_of excluded key ≡ true
    → hashed_fields (set key v fs) ≡ hashed_fields fs
unfolding hashed_fields set
hashed_fields-set key v end h = rw h
hashed_fields-set key v (field k w fs) h = elim (Bool-cases (str_eq k key)) [
  | inl same ↦
      let k_excluded : one_of excluded k ≡ true = rw ((eq_iff k key).0 same) h in
      rw (same, k_excluded)
  | inr other ↦ rw other (elim (Bool-cases (one_of excluded k)) [
    | inl out ↦ rw out (hashed_fields-set key v fs h)
    | inr kept ↦ rw kept (ap (field k w) (hashed_fields-set key v fs h))
  ])
]

-- the members that the transport may change on the way
unfoldable pub IsTransport : String → Type 0
IsTransport key =
    (key ≡ "recordHash")
    ⊎ (key ≡ "emittedAt")
    ⊎ (key ≡ "instanceId")
    ⊎ (key ≡ "exportRetryCount")
    ⊎ (key ≡ "collectorTimestamp")
    ⊎ (key ≡ "exporterHost")

IsTransport-excluded : (key : String) → IsTransport key ↔ (one_of excluded key ≡ true)
unfolding one_of IsTransport
IsTransport-excluded key = ground (
  arith,
  eq_iff key "recordHash",
  eq_iff key "emittedAt",
  eq_iff key "instanceId",
  eq_iff key "exportRetryCount",
  eq_iff key "collectorTimestamp",
  eq_iff key "exporterHost",
)

get-hashed_fields :
    (key : String) (fs : Fields)
    → one_of excluded key ≡ false
    → get (hashed_fields fs) key ≡ get fs key
unfolding hashed_fields get
get-hashed_fields key end h = refl
get-hashed_fields key (field k v fs) h = ground (arith, h, get-hashed_fields key fs h, eq_iff k key)

get-hashed_fields_own :
    (key : String) (fs : Fields)
    → one_of excluded key ≡ true
    → get (hashed_fields fs) key ≡ undefined
unfolding hashed_fields get
get-hashed_fields_own key end h = refl
get-hashed_fields_own key (field k v fs) h =
    ground (arith, h, get-hashed_fields_own key fs h, eq_iff k key)

-- The record hash is that of the canonical text of an object which has every member of the envelope
-- that is not the transport's own and none of those, and writing one of the transport's own leaves it as it was.
pub record_hash-Covered :
    (p : Printer) (sha256 : String → String) (envelope : Fields)
    → (covered : Fields) × (record_hash p sha256 envelope ≡ sha256_canonical p sha256 (obj covered))
      × ((key : String) → ¬ IsTransport key → get covered key ≡ get envelope key)
      × ((key : String) → IsTransport key → get covered key ≡ undefined)
      × ((key : String) (v : Value)
          → IsTransport key
          → record_hash p sha256 (set key v envelope) ≡ record_hash p sha256 envelope)
unfolding record_hash
record_hash-Covered p sha256 envelope = (
  hashed_fields envelope,
  refl,
  λ key own. get-hashed_fields key envelope (elim (Bool-cases (one_of excluded key)) [
    | inl out ↦ absurd (own ((IsTransport-excluded key).1 out))
    | inr kept ↦ kept
  ]),
  λ key own. get-hashed_fields_own key envelope ((IsTransport-excluded key).0 own),
  λ key v own.
      ap (λ fs. sha256_canonical p sha256 (obj fs))
        (hashed_fields-set key v envelope ((IsTransport-excluded key).0 own)),
)

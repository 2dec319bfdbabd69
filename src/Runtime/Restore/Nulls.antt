-- ===== src/Runtime/Restore/Nulls.antt =====
-- What putting nulls back does to a payload.
use smpp_telemetry_platform.Base.{
  ◌≡◌, ◌⊎◌, inl, refl, String, Bool, true, false, List, [], ◌∷◌, str_eq, eq_iff, arith,
  if◌then◌else◌,
}
use smpp_telemetry_platform.Json.{Value, Fields, null, str, end, field, get, has_key, strict_eq}
use smpp_telemetry_platform.Canonical.Hash.{set}
use smpp_telemetry_platform.Runtime.Sound.Facts.{is_text-eq}
use smpp_telemetry_platform.Runtime.Restore.{null_if_empty, null_all, restored_payload, reconciles}

pub get-set :
    (key k : String) (v : Value) (fs : Fields)
    → get (set key v fs) k ≡ (if str_eq key k then v else get fs k)
unfolding get set
get-set key k v end = refl
get-set key k v (field j w fs) =
    ground (arith, eq_iff j key, eq_iff j k, eq_iff key k, get-set key k v fs)

has_key-set :
    (key k : String) (v : Value) (fs : Fields)
    → has_key (set key v fs) k ≡ (if str_eq key k then true else has_key fs k)
unfolding has_key set
has_key-set key k v end = refl
has_key-set key k v (field j w fs) =
    ground (arith, eq_iff j key, eq_iff j k, eq_iff key k, has_key-set key k v fs)

-- The key is missing or holds the empty text.
abbrev pub IsEmpty : Fields → String → Type 0
IsEmpty q k = (has_key q k ≡ false) ⊎ (get q k ≡ str "")

abbrev pub Kept : Fields → Fields → String → Type 0
Kept q q' k = (get q' k ≡ get q k) × (has_key q' k ≡ has_key q k)

abbrev pub BecameNull : Fields → Fields → String → Type 0
BecameNull q q' k = (get q' k ≡ null) × (has_key q' k ≡ true) × IsEmpty q k

-- Every key is kept, or was empty and became null.
pub record Nulled (q q' : Fields) : Type 0 where
  pub at : (k : String) → Kept q q' k ⊎ BecameNull q q' k

Nulled-refl : (q : Fields) → Nulled q q
Nulled-refl q = record { at = λ k. inl (refl, refl) }

Nulled-trans : {q r s : Fields} → Nulled q r → Nulled r s → Nulled q s
Nulled-trans a b = record { at = λ k. ground (arith, a.at k, b.at k) }

null_if_empty-Nulled : (key : String) (q : Fields) → Nulled q (null_if_empty key q)
unfolding null_if_empty
null_if_empty-Nulled key q = record {
  at = λ k. ground (
    arith,
    get-set key k null q,
    has_key-set key k null q,
    eq_iff key k,
    is_text-eq (get q key) "",
  );
}

null_all-Nulled : (ks : List String) (q : Fields) → Nulled q (null_all ks q)
unfolding null_all
null_all-Nulled [] q = Nulled-refl q
null_all-Nulled (k ∷ ks) q =
    Nulled-trans (null_if_empty-Nulled k q) (null_all-Nulled ks (null_if_empty k q))

Nulled-if : (b : Bool) {q r s : Fields} → Nulled q r → Nulled q s → Nulled q (if b then r else s)
Nulled-if true x y = x
Nulled-if false x y = y

pub restored_payload-Nulled :
    (candidate attributes q : Fields) → Nulled q (restored_payload candidate attributes q)
unfolding restored_payload
restored_payload-Nulled candidate attributes q =
    let simulated = null_if_empty-Nulled "simulationId" q in
    let one =
      Nulled-if (reconciles attributes q)
        (Nulled-if (strict_eq (get (null_if_empty "simulationId" q) "status") (str "found"))
          simulated (Nulled-trans simulated (null_if_empty-Nulled "externalExecutionId" _)))
        (Nulled-refl q) in
    let two =
      Nulled-if (strict_eq (get candidate "recordType") (str "provider.task.lifecycle"))
        (Nulled-trans one (
          null_all-Nulled
            ("previousState" ∷ "previousSubstate" ∷ "currentSubstate" ∷ "reasonCode" ∷ "resultClass"
              ∷ [])
            _))
        one in
    Nulled-if _ (Nulled-trans two (null_if_empty-Nulled "deviceMissionId" _)) two

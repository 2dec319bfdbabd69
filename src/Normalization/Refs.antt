-- ===== src/Normalization/Refs.antt =====
-- The entities of a fact are those that its record names.
use smpp_telemetry_platform.Base.{
  ◌≡◌, refl, sym, ap, ◌∙◌, String, some, List, [], ◌∷◌, str_eq, eq_iff, if◌then◌else◌, Bool-cases,
  inl, inr, All, All-append,
}
use smpp_telemetry_platform.Base.Result.{ok, Ensures, after, holding, Ensures-ok, on_test}
use smpp_telemetry_platform.Json.{Value, Fields, str, get}
use smpp_telemetry_platform.Query.Urn.{UriCodec}
use smpp_telemetry_platform.Runtime.Semantic.{Semantic}
use smpp_telemetry_platform.Normalization.{EntityRef, entity_urn, add, exact_mission, entity_refs}
use smpp_telemetry_platform.Normalization.Relations.{urn_of}

-- the URN of an entity of the record's own tenant and deployment
abbrev pub Names : UriCodec → String → String → String → String → String → Type 0
Names uri tenant deployment type id urn = entity_urn uri tenant "smpp" deployment type id ≡ ok urn

module _ (uri : UriCodec) (tenant deployment : String) (envelope : Fields)
    (semantic : Semantic) where
  -- the member that names the entity of a type
  abbrev pub source_of : String → Value
  source_of type =
      if str_eq type "runtime"
      then get envelope "instanceId"
      else if str_eq type "provider"
      then get envelope "providerId"
      else if str_eq type "task"
      then get envelope "taskId"
      else if str_eq type "resource"
      then get envelope "resourceId"
      else if str_eq type "execution"
      then get envelope "externalExecutionId"
      else exact_mission semantic.mission_relation

  abbrev pub Holds : EntityRef → Type 0
  Holds ref =
      (source_of ref.entity_type ≡ str ref.local_id)
      × Names uri tenant deployment ref.entity_type ref.local_id ref.urn

  add-Holds :
      (type : String) (value : Value) (refs : List EntityRef)
      → source_of type ≡ value
      → All Holds refs
      → Ensures (All Holds) (add uri tenant deployment type value refs)
  unfolding add
  add-Holds type (str text) refs named all =
      on_test (str_eq text "") (λ _. Ensures-ok all)
        λ _. after λ urn encoded. Ensures-ok (All-append Holds refs _ all ((named, encoded), tt))
  add-Holds type _ refs named all = Ensures-ok all

  pub entity_refs-Holds : Ensures (All Holds) (entity_refs uri tenant deployment envelope semantic)
  unfolding entity_refs
  entity_refs-Holds = holding (add-Holds "runtime" _ [] refl tt) λ r1 h1.
      holding (add-Holds "provider" _ r1 refl h1) λ r2 h2.
        holding (add-Holds "task" _ r2 refl h2) λ r3 h3.
          holding (add-Holds "resource" _ r3 refl h3) λ r4 h4.
            holding (add-Holds "execution" _ r4 refl h4)
              λ r5 h5. add-Holds "device_mission" _ r5 refl h5

  pub urn_of-Holds :
      (refs : List EntityRef) (type : String) {urn : String}
      → All Holds refs
      → urn_of refs type ≡ some urn
      → (id : String) × (source_of type ≡ str id) × Names uri tenant deployment type id urn
  unfolding urn_of
  urn_of-Holds [] type all h = cc
  urn_of-Holds (ref ∷ refs) type {urn} (here, all) h =
      elim (Bool-cases (str_eq ref.entity_type type)) [
        | inl same ↦
            let of_type : ref.entity_type ≡ type = (eq_iff ref.entity_type type).0 same in
            let found : ref.urn ≡ urn = some-injective (sym (rw same refl) ∙ h) in
            (
              ref.local_id,
              sym (ap source_of of_type) ∙ here.0,
              sym (ap (λ t. entity_urn uri tenant "smpp" deployment t ref.local_id) of_type)
                  ∙ here.1
                  ∙ ap ok found,
            )
        | inr other ↦ urn_of-Holds refs type all (sym (rw other refl) ∙ h)
      ]
    where
      some-injective : {a b : String} → some a ≡ some b → a ≡ b
      some-injective h = cc

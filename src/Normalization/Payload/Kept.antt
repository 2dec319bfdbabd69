-- ===== src/Normalization/Payload/Kept.antt =====
-- What a record's envelope can and cannot put into the payload of its fact.
use mathlib.Core.Bool.{true≢false}
use smpp_telemetry_platform.Base.{
  ◌≡◌, ◌⊎◌, refl, sym, ap, ◌∙◌, String, true, false, List, [], ◌∷◌, str_eq, eq_iff, if◌then◌else◌,
  Bool-cases, inl, inr, arith, All, all, subst,
}
use smpp_telemetry_platform.Base.Text.{one_of}
use smpp_telemetry_platform.Json.{
  Value, Fields, undefined, null, obj, end, field, get, coalesce, is_undefined,
}
use smpp_telemetry_platform.Canonical.Hash.{set}
use smpp_telemetry_platform.Runtime.Semantic.{Semantic}
use smpp_telemetry_platform.Runtime.Restore.Nulls.{get-set}
use smpp_telemetry_platform.Normalization.Payload.Read.{Holds, semantic_value-Holds}
use smpp_telemetry_platform.Normalization.Payload.{
  lineage_fields, copy_fields, source_payload, semantic_value,
}

is_undefined-eq : (v : Value) → is_undefined v ≡ true → v ≡ undefined
is_undefined-eq undefined h = refl
is_undefined-eq _ h = cc

module _ (envelope : Fields) (k : String) where
  -- one turn of the loop
  copied : String → Fields → Fields
  copied key payload =
      if is_undefined (get envelope key) then payload else set key (get envelope key) payload

  get-copied_other :
      (key : String) (payload : Fields)
      → str_eq k key ≡ false
      → get (copied key payload) k ≡ get payload k
  unfolding copied
  get-copied_other key payload h = elim (Bool-cases (is_undefined (get envelope key))) [
    | inl missing ↦ simp missing
    | inr given ↦ simp given (get-set key k (get envelope key) payload ∙ simp (not_same key h))
  ]
    where
      not_same : (key : String) → str_eq k key ≡ false → str_eq key k ≡ false
      not_same key h = ground (arith, eq_iff k key, eq_iff key k, h)

  -- what the envelope has, if anything is there
  abbrev Agrees : Fields → Type 0
  Agrees payload = (get payload k ≡ undefined) ⊎ (get payload k ≡ get envelope k)

  get-copied_same :
      (key : String) (payload : Fields)
      → str_eq k key ≡ true
      → Agrees payload
      → get (copied key payload) k ≡ get envelope k
  unfolding copied
  get-copied_same key payload h agrees =
      let same : k ≡ key = (eq_iff k key).0 h in
      elim (Bool-cases (is_undefined (get envelope key))) [
        | inl missing ↦
            let absent : get envelope k ≡ undefined =
              ap (get envelope) same ∙ is_undefined-eq (get envelope key) missing in
            simp missing (elim agrees [ inl nothing ↦ nothing ∙ sym absent | inr there ↦ there ])
        | inr given ↦ simp given (
            get-set key k (get envelope key) payload
            ∙ simp ((eq_iff key k).1 (sym same)) (ap (get envelope) (sym same)))
      ]

  copied-Agrees : (key : String) (payload : Fields) → Agrees payload → Agrees (copied key payload)
  copied-Agrees key payload agrees = elim (Bool-cases (str_eq k key)) [
    | inl same ↦ inr (get-copied_same key payload same agrees)
    | inr other ↦
        let kept = get-copied_other key payload other in
        elim agrees [ inl nothing ↦ inl (kept ∙ nothing) | inr there ↦ inr (kept ∙ there) ]
  ]

  copy_fields-other :
      (keys : List String) (payload : Fields)
      → one_of keys k ≡ false
      → get (copy_fields envelope keys payload) k ≡ get payload k
  unfolding copy_fields copied one_of
  copy_fields-other [] payload h = refl
  copy_fields-other (key ∷ keys) payload h =
      copy_fields-other keys (copied key payload) (ground (arith, h))
      ∙ get-copied_other key payload (ground (arith, h))

  copy_fields-copied :
      (keys : List String) (payload : Fields)
      → one_of keys k ≡ true
      → Agrees payload
      → get (copy_fields envelope keys payload) k ≡ get envelope k
  unfolding copy_fields copied one_of
  copy_fields-copied [] payload h agrees = cc
  copy_fields-copied (key ∷ keys) payload h agrees = elim (Bool-cases (one_of keys k)) [
    | inl later ↦
        copy_fields-copied keys (copied key payload) later (copied-Agrees key payload agrees)
    | inr last ↦
        copy_fields-other keys (copied key payload) last
        ∙ get-copied_same key payload (ground (arith, h, last)) agrees
  ]

abbrev initial_payload : Fields → Semantic → Fields
initial_payload envelope semantic =
    field "attributes" (coalesce (get envelope "attributes") (obj end)) (
      field "payload" (coalesce (get envelope "payload") null)
        (field "runtimeSemantic" (semantic_value semantic) end))

-- a key that is no lineage field is not the key of one
not_named :
    (name k : String)
    → one_of lineage_fields k ≡ true
    → one_of lineage_fields name ≡ false
    → str_eq name k ≡ false
not_named name k lineage other = elim (Bool-cases (str_eq name k)) [
  | inl same ↦
      absurd (
        true≢false
          (sym lineage ∙ ap (one_of lineage_fields) (sym ((eq_iff name k).0 same)) ∙ other))
  | inr differs ↦ differs
]

initial_payload-lineage :
    (envelope : Fields) (semantic : Semantic) (k : String)
    → one_of lineage_fields k ≡ true
    → get (initial_payload envelope semantic) k ≡ undefined
unfolding get one_of
initial_payload-lineage envelope semantic k lineage = simp (
  not_named "attributes" k lineage refl,
  not_named "payload" k lineage refl,
  not_named "runtimeSemantic" k lineage refl,
)

initial_payload-semantic :
    (envelope : Fields) (semantic : Semantic)
    → get (initial_payload envelope semantic) "runtimeSemantic" ≡ semantic_value semantic
unfolding get
initial_payload-semantic envelope semantic = refl

semantic_unlisted : one_of lineage_fields "runtimeSemantic" ≡ false
unfolding one_of
semantic_unlisted = refl

-- the members by which a fact is traced to its provider, task, execution and span
abbrev pub traced_members : List String
traced_members =
    "providerId" ∷ "runtimeVersion" ∷ "instanceId" ∷ "taskId" ∷ "resourceId" ∷ "resourceType"
    ∷ "externalExecutionId" ∷ "operationName" ∷ "correlationId" ∷ "traceId" ∷ "spanId"
    ∷ "providerEventId" ∷ "providerEventSequence" ∷ "eventType" ∷ "executionMode" ∷ "simulationId"
    ∷ "argumentHash" ∷ "authorizationContextHash" ∷ "adapterRevision" ∷ "observationRevision"
    ∷ "commandSequence" ∷ "recordType" ∷ "eventCategory" ∷ "deliveryClass" ∷ "occurredAt"
    ∷ "emittedAt" ∷ []

traced-listed : all (one_of lineage_fields) traced_members ≡ true
unfolding one_of
traced-listed = refl

kept-lineage :
    (envelope : Fields) (semantic : Semantic) (k : String)
    → one_of lineage_fields k ≡ true
    → get (source_payload envelope semantic) k ≡ get envelope k
unfolding source_payload
kept-lineage envelope semantic k lineage =
    copy_fields-copied envelope k lineage_fields (initial_payload envelope semantic) lineage
      (inl (initial_payload-lineage envelope semantic k lineage))

kept-all :
    (envelope : Fields) (semantic : Semantic) (keys : List String)
    → all (one_of lineage_fields) keys ≡ true
    → All (λ k. get (source_payload envelope semantic) k ≡ get envelope k) keys
kept-all envelope semantic [] h = tt
kept-all envelope semantic (k ∷ keys) h = (
  kept-lineage envelope semantic k (ground (arith, h)),
  kept-all envelope semantic keys (ground (arith, h)),
)

kept-semantic :
    (envelope : Fields) (semantic : Semantic)
    → get (source_payload envelope semantic) "runtimeSemantic" ≡ semantic_value semantic
unfolding source_payload
kept-semantic envelope semantic =
    copy_fields-other envelope "runtimeSemantic" lineage_fields (initial_payload envelope semantic)
      semantic_unlisted
    ∙ initial_payload-semantic envelope semantic

-- The payload of a fact has each member by which it is traced as the envelope has it, and every part
-- of the semantics but the binding and the time is read back from it as it was inspected.
pub source_payload-kept :
    (envelope : Fields) (semantic : Semantic)
    → All (λ k. get (source_payload envelope semantic) k ≡ get envelope k) traced_members
      × Holds (get (source_payload envelope semantic) "runtimeSemantic") semantic
source_payload-kept envelope semantic = (
  kept-all envelope semantic traced_members traced-listed,
  subst (λ v. Holds v semantic) (sym (kept-semantic envelope semantic))
      (semantic_value-Holds semantic),
)

-- ===== src/Normalization/Relations/Claims.antt =====
-- What a fact's relations may claim, and that each group of them claims no more.
use smpp_telemetry_platform.Base.{
  ℕ, ◌≡◌, ◌⊎◌, refl, sym, ◌∙◌, ap, true, false, String, List, [], ◌∷◌, Option, none, some, str_eq,
  eq_iff, Bool-cases, inl, inr, All, All-append,
}
use smpp_telemetry_platform.Base.Result.{Ensures, after, holding, Ensures-ok, on_test}
use smpp_telemetry_platform.Json.{str, null}
use smpp_telemetry_platform.Query.Urn.{UriCodec}
use smpp_telemetry_platform.Runtime.Semantic.{Semantic, Binding, Reconciliation, MissionRelation}
use smpp_telemetry_platform.Normalization.{EntityRef, Fact, exact_mission}
use smpp_telemetry_platform.Normalization.Refs.{Names}
use smpp_telemetry_platform.Normalization.Relations.{
  EntityRelation, relation, origins_of, origins_to, origin_relations, bound_execution,
  bound_mission, authoritative_relation, urn_of, target_of, or_target, is_origin,
}

-- a claim of the source, which has no authority
pub record IsTraced (fact : Fact) (r : EntityRelation) : Type 0 where
  pub traced : r.confidence_class ≡ "traced"
  pub no_authority : r.provenance.authority ≡ false
  pub selects_nothing : r.provenance.may_select_facts ≡ false
  pub from_origin : r.source_system ≡ "sdar"
  pub declared : fact.correlation.origin_system ≡ some "sdar"

-- A relation that the runtime's semantics authorize: from the bound task to the bound execution, or
-- from the observed execution to the mission of an exact observation.
pub data IsAuthorized (uri : UriCodec) (tenant deployment : String) (semantic : Semantic)
    (r : EntityRelation) : Type 0 where
  by_binding :
      (binding : Binding) (execution : String)
      → semantic.binding ≡ some binding
      → binding.external_execution_id ≡ some execution
      → r.relation_type ≡ "task_execution_binding"
      → r.binding_source ≡ binding.binding_source
      → Names uri tenant deployment "task" binding.task_id r.source_entity_urn
      → Names uri tenant deployment "execution" execution r.target_entity_urn
      → IsAuthorized uri tenant deployment semantic r
  by_mission :
      (observed : MissionRelation) (mission : String)
      → semantic.mission_relation ≡ some observed
      → observed.relation_status ≡ "exact"
      → observed.device_mission_id ≡ some mission
      → r.relation_type ≡ "execution_mission_binding"
      → Names uri tenant deployment "execution" observed.external_execution_id r.source_entity_urn
      → Names uri tenant deployment "device_mission" mission r.target_entity_urn
      → IsAuthorized uri tenant deployment semantic r

pub record IsGrounded (uri : UriCodec) (deployment : String) (fact : Fact) (semantic : Semantic)
    (r : EntityRelation) : Type 0 where
  pub tenant : r.tenant_id ≡ fact.tenant_id
  pub project : r.project_id ≡ fact.project_id
  pub evidence : r.evidence_fact_ids ≡ fact.fact_id ∷ []
  pub no_override : r.provenance.may_override_binding ≡ false
  pub claim : IsTraced fact r ⊎ IsAuthorized uri fact.tenant_id deployment semantic r

pub str-injective : {a b : String} → str a ≡ str b → a ≡ b
str-injective h = cc

pub exact_mission-named :
    (o : MissionRelation) (id : String)
    → o.relation_status ≡ "exact"
    → exact_mission (some o) ≡ str id
    → o.device_mission_id ≡ some id
unfolding exact_mission
exact_mission-named o id exact h = named_by o.device_mission_id (sym (rw exact refl) ∙ h)
  where
    named_by :
        (mission : Option String)
        → elim mission [ some text ↦ str text | none ↦ null ] ≡ str id
        → mission ≡ some id
    named_by none h = cc
    named_by (some m) h = ap some (str-injective h)

is_origin-sdar : (system : Option String) → is_origin system ≡ true → system ≡ some "sdar"
is_origin-sdar none h = cc
is_origin-sdar (some system) h = ap some ((eq_iff system "sdar").0 h)

module _ (uri : UriCodec) (sha1 : String → List ℕ) (deployed : String) (fact : Fact)
    (semantic : Semantic) where
  relation-IsGrounded :
      (source target type : String)
      → fact.correlation.origin_system ≡ some "sdar"
      → IsGrounded uri deployed fact semantic
          (relation uri sha1 fact source target type fact.correlation)
  unfolding relation
  relation-IsGrounded source target type declared = record {
    tenant = refl;
    project = refl;
    evidence = refl;
    no_override = refl;
    claim = inl (record {
      traced = refl;
      no_authority = refl;
      selects_nothing = refl;
      from_origin = refl;
      declared = declared;
    });
  }

  origins_of-IsGrounded :
      (deployment entity_type type target : String) (ids : List String)
      → fact.correlation.origin_system ≡ some "sdar"
      → Ensures
          (All (IsGrounded uri deployed fact semantic))
          (origins_of uri sha1 fact fact.correlation deployment entity_type type target ids)
  unfolding origins_of
  origins_of-IsGrounded deployment entity_type type target [] declared = Ensures-ok tt
  origins_of-IsGrounded deployment entity_type type target (id ∷ ids) declared = after λ source _.
      holding (origins_of-IsGrounded deployment entity_type type target ids declared)
        λ later all. Ensures-ok (relation-IsGrounded source target type declared, all)

  origins_to-IsGrounded :
      (provider target : Option String)
      → fact.correlation.origin_system ≡ some "sdar"
      → Ensures
          (All (IsGrounded uri deployed fact semantic))
          (origins_to uri sha1 fact fact.correlation provider target)
  unfolding origins_to
  origins_to-IsGrounded provider none declared = Ensures-ok tt
  origins_to-IsGrounded provider (some target) declared = after λ deployment _.
      holding (origins_of-IsGrounded deployment "task" "invokes" target _ declared) λ tasks h.
        holding (origins_of-IsGrounded deployment "invocation" "delegates_to" target _ declared)
          λ calls k.
            holding
              (origins_of-IsGrounded deployment "runtime" "served_by" (or_target provider target) _
                declared)
              λ runtimes l. Ensures-ok (All-append _ _ _ (All-append _ _ _ h k) l)

  authoritative-IsGrounded :
      (source target type binding_source : String) (attempt_no : Option ℕ) (claim_source : String)
      (refs : List String)
      → let r =
          authoritative_relation uri sha1 fact source target type binding_source attempt_no
            claim_source refs in
        IsAuthorized uri fact.tenant_id deployed semantic r
        → IsGrounded uri deployed fact semantic r
  unfolding authoritative_relation
  authoritative-IsGrounded source target type binding_source attempt_no claim_source refs claim =
      record {
        tenant = refl;
        project = refl;
        evidence = refl;
        no_override = refl;
        claim = inr claim;
      }

  -- the endpoints are those of the binding
  abbrev pub BindingEnds : Binding → String → String → Type 0
  BindingEnds binding task target =
      (execution : String) × (binding.external_execution_id ≡ some execution)
      × Names uri fact.tenant_id deployed "task" binding.task_id task
      × Names uri fact.tenant_id deployed "execution" execution target

  pub bound_execution-IsGrounded :
      (reconciled : Option Reconciliation) (task execution : Option String)
      (binding : Option Binding)
      → semantic.binding ≡ binding
      → ((b : Binding) (t x : String)
          → binding ≡ some b
          → task ≡ some t
          → execution ≡ some x
          → BindingEnds b t x)
      → All
          (IsGrounded uri deployed fact semantic)
          (bound_execution uri sha1 fact binding reconciled task execution)
  unfolding bound_execution authoritative_relation
  bound_execution-IsGrounded reconciled (some task) (some execution) (some binding) e ends =
      let (x, bound, from_task, to_execution) = ends binding task execution refl refl refl in
      (
        authoritative-IsGrounded _ _ _ _ _ _ _
            (by_binding binding x e bound refl refl from_task to_execution),
        tt,
      )
  bound_execution-IsGrounded reconciled task execution none e ends = tt
  bound_execution-IsGrounded reconciled none execution (some binding) e ends = tt
  bound_execution-IsGrounded reconciled (some task) none (some binding) e ends = tt

  -- the endpoints are those of the observation
  abbrev pub MissionEnds : MissionRelation → String → String → Type 0
  MissionEnds observed execution target =
      (mission : String) × (observed.device_mission_id ≡ some mission)
      × Names uri fact.tenant_id deployed "execution" observed.external_execution_id execution
      × Names uri fact.tenant_id deployed "device_mission" mission target

  pub bound_mission-IsGrounded :
      (observed : Option MissionRelation) (execution mission : Option String)
      → semantic.mission_relation ≡ observed
      → ((o : MissionRelation) (x m : String)
          → observed ≡ some o
          → o.relation_status ≡ "exact"
          → execution ≡ some x
          → mission ≡ some m
          → MissionEnds o x m)
      → All
          (IsGrounded uri deployed fact semantic)
          (bound_mission uri sha1 fact observed execution mission)
  unfolding bound_mission authoritative_relation
  bound_mission-IsGrounded (some observed) (some execution) (some mission) e ends =
      elim (Bool-cases (str_eq observed.relation_status "exact")) [
        | inl exact ↦
            let is_exact = (eq_iff observed.relation_status "exact").0 exact in
            let (m, named, from_execution, to_mission) =
              ends observed execution mission refl is_exact refl refl in
            simp exact (
              authoritative-IsGrounded _ _ _ _ _ _ _
                  (by_mission observed m e is_exact named refl from_execution to_mission),
              tt,
            )
        | inr other ↦ simp other tt
      ]
  bound_mission-IsGrounded none execution mission e ends = tt
  bound_mission-IsGrounded (some observed) none mission e ends = tt
  bound_mission-IsGrounded (some observed) (some execution) none e ends = tt

  pub origin_relations-IsGrounded :
      (refs : List EntityRef)
      → Ensures
          (All (IsGrounded uri deployed fact semantic))
          (origin_relations uri sha1 fact fact.correlation refs)
  unfolding origin_relations
  origin_relations-IsGrounded refs =
      on_test (is_origin fact.correlation.origin_system)
        (λ sdar.
          origins_to-IsGrounded (urn_of refs "provider")
            (target_of (urn_of refs "task") (urn_of refs "provider"))
            (is_origin-sdar fact.correlation.origin_system sdar))
        (λ _. Ensures-ok tt)

-- ===== src/Normalization/Relations/Grounded.antt =====
-- Every relation of a record's fact is grounded in the record.
use smpp_telemetry_platform.Base.{
  ℕ, ◌≡◌, refl, sym, ◌∙◌, subst, ap, String, List, [], ◌++◌, Option, some, All, All-append,
}
use smpp_telemetry_platform.Base.Result.{ok, Ensures, after, holding, Ensures-ok}
use smpp_telemetry_platform.Json.{Fields}
use smpp_telemetry_platform.Query.Urn.{UriCodec}
use smpp_telemetry_platform.Correlation.{Correlation, normalize_provider_correlation}
use smpp_telemetry_platform.Runtime.Semantic.{Semantic, Binding, MissionRelation}
use smpp_telemetry_platform.Runtime.Inspect.{inspect}
use smpp_telemetry_platform.Normalization.{
  EntityRef, Accepted, Fact, fact_of, exact_mission, required_identity,
}
use smpp_telemetry_platform.Normalization.Refs.{Names, Holds, entity_refs-Holds, urn_of-Holds}
use smpp_telemetry_platform.Runtime.Sound.{IsSound}
use smpp_telemetry_platform.Runtime.Sound.Bound.{IsSound-binding, IsSound-mission}
use smpp_telemetry_platform.Runtime.Sound.Whole.{inspect-Ensures}
use smpp_telemetry_platform.Normalization.Relations.{
  bound_execution, bound_mission, relations, normalize, urn_of,
}
use smpp_telemetry_platform.Normalization.Relations.Unique.{
  Unique, by_relation_id-Unique, All-by_relation_id,
}
use smpp_telemetry_platform.Normalization.Relations.Claims.{
  IsGrounded, BindingEnds, MissionEnds, str-injective, exact_mission-named,
  origin_relations-IsGrounded, bound_execution-IsGrounded, bound_mission-IsGrounded,
}

module _ (uri : UriCodec) (sha1 : String → List ℕ) (deployed : String) (fact : Fact)
    (semantic : Semantic) where
  module _ (envelope attributes payload : Fields)
      (sound : IsSound envelope attributes payload semantic) (refs : List EntityRef)
      (named : All (Holds uri fact.tenant_id deployed envelope semantic) refs) where
    binding-ends :
        (b : Binding) (t x : String)
        → semantic.binding ≡ some b
        → urn_of refs "task" ≡ some t
        → urn_of refs "execution" ≡ some x
        → BindingEnds uri sha1 deployed fact semantic b t x
    binding-ends b t x bound task execution =
        let (id, of_task, from_task) =
          urn_of-Holds uri fact.tenant_id deployed envelope semantic refs "task" named task in
        let (run, of_execution, to_execution) =
          urn_of-Holds uri fact.tenant_id deployed envelope semantic refs "execution" named
            execution in
        let (task_named, execution_named) =
          IsSound-binding envelope attributes payload run of_execution semantic b sound bound in
        let same : id ≡ b.task_id = str-injective (sym of_task ∙ task_named) in
        (
          run,
          execution_named,
          subst (λ i. Names uri fact.tenant_id deployed "task" i t) same from_task,
          to_execution,
        )

    mission-ends :
        (o : MissionRelation) (x m : String)
        → semantic.mission_relation ≡ some o
        → o.relation_status ≡ "exact"
        → urn_of refs "execution" ≡ some x
        → urn_of refs "device_mission" ≡ some m
        → MissionEnds uri sha1 deployed fact semantic o x m
    mission-ends o x m observed exact execution mission =
        let (run, of_execution, from_execution) =
          urn_of-Holds uri fact.tenant_id deployed envelope semantic refs "execution" named
            execution in
        let (id, of_mission, to_mission) =
          urn_of-Holds uri fact.tenant_id deployed envelope semantic refs "device_mission" named
            mission in
        let same =
          IsSound-mission envelope attributes payload run of_execution semantic o sound observed in
        (
          id,
          exact_mission-named o id exact (sym (ap exact_mission observed) ∙ of_mission),
          subst (λ i. Names uri fact.tenant_id deployed "execution" i x) (sym same) from_execution,
          to_mission,
        )

    relations-IsGrounded :
        Ensures
          (λ found. All (IsGrounded uri deployed fact semantic) found × Unique found)
          (relations uri sha1 fact fact.correlation refs semantic)
    unfolding relations Unique
    relations-IsGrounded =
        holding (origin_relations-IsGrounded uri sha1 deployed fact semantic refs) λ origins h.
          let execution = urn_of refs "execution" in
          let bound =
            bound_execution-IsGrounded uri sha1 deployed fact semantic semantic.reconciliation
              (urn_of refs "task") execution semantic.binding refl binding-ends in
          let observed =
            bound_mission-IsGrounded uri sha1 deployed fact semantic semantic.mission_relation
              execution (urn_of refs "device_mission") refl mission-ends in
          let kept =
            All-by_relation_id (IsGrounded uri deployed fact semantic) [] _ tt
              (All-append _ _ _ (All-append _ _ _ h bound) observed) in
          Ensures-ok (
            kept,
            by_relation_id-Unique []
                (origins
                  ++ bound_execution uri sha1 fact semantic.binding semantic.reconciliation
                      (urn_of refs "task") execution
                  ++ bound_mission uri sha1 fact semantic.mission_relation execution
                      (urn_of refs "device_mission"))
                tt,
          )

-- Every relation of the fact of a record has the record's tenant and project, no two have the same
-- identifier, and none may override a binding. One that the source declares is traced: it has no
-- authority and selects no facts. An authoritative one goes from the task to the execution that the
-- inspected semantics bind, or from the execution to the mission that they observe as exact, by the
-- URNs of these in the record's tenant and deployment.
pub normalize-IsGrounded :
    (uri : UriCodec) (sha1 : String → List ℕ) (date_parse : String → Option ℕ) (accepted : Accepted)
    → Ensures
        (λ result.
          (deployment : String) × (correlation : Correlation) × (semantic : Semantic)
          × (required_identity accepted.deployment_id "DEPLOYMENT_ID" ≡ ok deployment)
          × (normalize_provider_correlation accepted.envelope ≡ ok correlation)
          × (inspect date_parse accepted.envelope ≡ ok semantic)
          × All (IsGrounded uri deployment (fact_of sha1 accepted correlation) semantic) result.1
          × Unique result.1)
        (normalize uri sha1 date_parse accepted)
unfolding normalize fact_of
normalize-IsGrounded uri sha1 date_parse accepted = after λ deployment deployed.
    after λ correlation normal. after λ semantic inspected.
      holding (entity_refs-Holds uri accepted.tenant_id deployment accepted.envelope semantic)
        λ refs named.
          let (attributes, payload, sound) =
            (inspect-Ensures date_parse accepted.envelope).returns semantic inspected in
          holding
            (relations-IsGrounded uri sha1 deployment (fact_of sha1 accepted correlation) semantic
              accepted.envelope attributes payload sound refs named)
            λ found (grounded, unique).
              Ensures-ok
                (deployment, correlation, semantic, deployed, normal, inspected, grounded, unique)

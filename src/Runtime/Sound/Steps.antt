-- ===== src/Runtime/Sound/Steps.antt =====
-- Each block of `inspectSmppRuntimeSemantic` keeps the invariant.
use smpp_telemetry_platform.Base.{
  ℕ, ◌≡◌, refl, subst, String, true, false, Option, none, arith, eq_iff, str_eq,
}
use smpp_telemetry_platform.Base.Result.{Ensures, after, checked, holding, Ensures-ok}
use smpp_telemetry_platform.Json.{Fields, get}
use smpp_telemetry_platform.Runtime.Semantic.{Semantic, is_uncertainty, is_text}
use smpp_telemetry_platform.Runtime.Observation.{inspect_evidence, inspect_mission_relation}
use smpp_telemetry_platform.Runtime.Closure.{
  inspect_business_terminal, closes_identity, close_identity,
}
use smpp_telemetry_platform.Runtime.Recovery.{inspect_uncertainty, inspect_reconciliation}
use smpp_telemetry_platform.Runtime.Sound.{IsSound, Given}
use smpp_telemetry_platform.Runtime.Sound.Facts.{
  string-eq-ok, is_text_ne, common_task_identity-eq-ok, execution-is_some, safe_at_least-le,
  safe_at_least-eq-ok, utc-eq-ok, enum_value-eq-ok, boolean-eq-ok, optional_string-Given,
  string_array-texts, execution-Agreed, same_optional-eq, strict_eq-false, causal_refs-Listed,
}

abbrev pub Unbound : Semantic → Type 0
Unbound s = (s.binding ≡ none) × (s.reconciliation ≡ none)

module _ (date_parse : String → Option ℕ) (envelope attributes payload : Fields) where
  abbrev Sound : Semantic → Type 0
  Sound = IsSound envelope attributes payload

  pub uncertainty-Sound :
      (s : Semantic)
      → Unbound s
      → Sound s
      → Ensures
          (λ t. Unbound t × Sound t)
          (inspect_uncertainty date_parse envelope attributes payload s)
  unfolding inspect_uncertainty
  uncertainty-Sound s u i = checked _ λ family. after λ task_id task. after λ occurred_at at.
      checked _ λ _. checked _ λ forbidden. after λ operation_name operation.
        after λ argument_hash hash. after λ class classed.
          holding (causal_refs-Listed _) λ refs listed. Ensures-ok (
            ground (
              arith,
              common_task_identity-eq-ok envelope payload task,
              utc-eq-ok _ _ _ at,
              strict_eq-false _ forbidden,
              string-eq-ok _ _ operation,
              string-eq-ok _ _ hash,
              enum_value-eq-ok _ _ _ classed,
              listed,
              eq_iff "not_ready" "ready",
            ))

  -- The two kinds of recovery record exclude each other.
  reconciliation-excludes :
      is_text (get attributes "semantic") "task.reconciliation" ≡ true
      → is_text (get payload "schemaVersion") "sdar.smpp-reconciliation-result/v1" ≡ true
      → is_uncertainty attributes payload ≡ false
  reconciliation-excludes a b =
      rw
        (is_text_ne (get attributes "semantic") "task.reconciliation" "dispatch.uncertainty" a refl)
        (is_text_ne (get payload "schemaVersion") "sdar.smpp-reconciliation-result/v1"
          "sdar.smpp-dispatch-uncertainty/v1" b refl)

  pub reconciliation-Sound :
      (s : Semantic)
      → Unbound s
      → Sound s
      → Ensures Sound (inspect_reconciliation date_parse envelope attributes payload s)
  unfolding inspect_reconciliation
  reconciliation-Sound s u i = checked _ λ family. after λ task_id task. after λ status stated.
      after λ attempt at. after λ execution ex. after λ validated valid. checked _ λ found.
        after λ occurred_at time. checked _ λ _. Ensures-ok (
          ground (
            arith,
            common_task_identity-eq-ok envelope payload task,
            reconciliation-excludes,
            safe_at_least-le 1 (get payload "attempt") "SMPP_RECONCILIATION_ATTEMPT_INVALID" at,
            safe_at_least-eq-ok 1 (get payload "attempt") "SMPP_RECONCILIATION_ATTEMPT_INVALID" at,
            enum_value-eq-ok _ _ _ stated,
            boolean-eq-ok _ _ valid,
            utc-eq-ok _ _ _ time,
            (execution-Agreed envelope payload (str_eq status "found")).returns execution ex,
            execution-is_some envelope payload (str_eq status "found") ex,
            eq_iff status "found",
            eq_iff "not_ready" "ready",
            eq_iff "conflict" "ready",
          ))

  pub business_terminal-Sound :
      (s : Semantic)
      → Sound s
      → Ensures Sound (inspect_business_terminal envelope attributes payload s)
  unfolding inspect_business_terminal
  business_terminal-Sound s i = checked _ λ family. after λ task_id task. after λ mcp mcp_read.
      after λ business business_read. after λ transport transport_read.
        after λ provider provider_read. after λ is_error error_read. checked _ λ agrees.
          Ensures-ok (
            ground (
              arith,
              common_task_identity-eq-ok envelope payload task,
              enum_value-eq-ok _ _ _ mcp_read,
              enum_value-eq-ok _ _ _ business_read,
              enum_value-eq-ok _ _ _ transport_read,
              string-eq-ok _ _ provider_read,
              boolean-eq-ok _ _ error_read,
              eq_iff business "failed",
            ))

  pub evidence-Sound :
      (s : Semantic)
      → Sound s
      → Ensures Sound (inspect_evidence date_parse envelope attributes payload s)
  unfolding inspect_evidence
  evidence-Sound s i = after λ kind kind_read. after λ task_id task. after λ execution ex.
      after λ resource_id resource. after λ provider _. after λ event _. after λ sequence _.
        after λ observed_at at. holding (optional_string-Given _ _) λ mission named.
          checked _ λ of_mission. Ensures-ok (
            ground (
              arith,
              enum_value-eq-ok _ _ _ kind_read,
              string-eq-ok _ _ task,
              string-eq-ok _ _ ex,
              string-eq-ok _ _ resource,
              utc-eq-ok _ _ _ at,
              named,
              eq_iff kind "mission",
            ))

  pub mission_relation-Sound :
      (s : Semantic)
      → Sound s
      → Ensures Sound (inspect_mission_relation date_parse envelope attributes payload s)
  unfolding inspect_mission_relation
  mission_relation-Sound s i = checked _ λ family. after λ task_id task. after λ execution ex.
      after λ status stated. holding (optional_string-Given _ _) λ mission named.
        after λ payload_status stated_too. checked _ λ same_status.
          holding (optional_string-Given _ _) λ payload_mission named_too. checked _ λ same_mission.
            checked _ λ identity. after λ refs listed. checked _ λ given. after λ payload_refs _.
              checked _ λ _. after λ observed_at at. checked _ λ _. Ensures-ok (
                let again =
                  subst (Given (get payload "deviceMissionId"))
                    (same_optional-eq payload_mission mission same_mission) named_too in
                ground (
                  arith,
                  string-eq-ok _ _ task,
                  string-eq-ok _ _ ex,
                  enum_value-eq-ok _ _ _ stated,
                  enum_value-eq-ok _ _ _ stated_too,
                  named,
                  again,
                  string_array-texts _ _ listed,
                  utc-eq-ok _ _ _ at,
                  eq_iff payload_status status,
                  eq_iff status "exact",
                  eq_iff "conflict" "ready",
                  eq_iff "not_ready" "ready",
                ))

  pub close_identity-Sound :
      (s : Semantic)
      → closes_identity envelope attributes payload s ≡ true
      → Sound s
      → Ensures Sound (close_identity envelope attributes payload s)
  unfolding close_identity closes_identity Given
  close_identity-Sound s test i = after λ task_id task. after λ execution ex. Ensures-ok (
      ground (
        arith,
        string-eq-ok (get envelope "taskId") "SMPP_RUNTIME_TASK_ID_REQUIRED" task,
        string-eq-ok (get envelope "externalExecutionId") "SMPP_RUNTIME_EXECUTION_ID_REQUIRED" ex,
      ))

-- ===== src/Query/Scope/Same.antt =====
-- A reader that has a scope is not given another one.
use smpp_telemetry_platform.Base.{◌≡◌, refl, ap, true, some, eq_iff, arith, any, not}
use smpp_telemetry_platform.Base.Result.{Ensures, after, checked, Ensures-ok, on_test}
use smpp_telemetry_platform.Query.Urn.{UriCodec}
use smpp_telemetry_platform.Query.Scope.{
  AuthorityScope, same_scope, scope_keys, requested_authority_scope, Parameters, has,
}

pub same_scope-eq : (a b : AuthorityScope) → same_scope a b ≡ true → a ≡ b
unfolding same_scope
same_scope-eq a b h =
    let tenant = (eq_iff a.tenant_id b.tenant_id).0 (ground (arith, h)) in
    let project = (eq_iff a.project_id b.project_id).0 (ground (arith, h)) in
    let environment = (eq_iff a.environment b.environment).0 (ground (arith, h)) in
    let source = (eq_iff a.smpp_source_id b.smpp_source_id).0 (ground (arith, h)) in
    let deployment = (eq_iff a.deployment_id b.deployment_id).0 (ground (arith, h)) in
    λ i. record {
      tenant_id = tenant i;
      project_id = project i;
      environment = environment i;
      smpp_source_id = source i;
      deployment_id = deployment i;
    }

-- A request of a reader that has a scope either fails or is answered in that scope, whatever its
-- parameters are.
pub requested_authority_scope-given :
    (uri : UriCodec) (ps : Parameters) (scope : AuthorityScope)
    → Ensures (λ requested. requested ≡ some scope) (requested_authority_scope uri ps (some scope))
unfolding requested_authority_scope
requested_authority_scope-given uri ps scope =
    on_test (not (any (has ps) scope_keys)) (λ _. Ensures-ok refl)
      (λ _. checked "AUTHORITY_SCOPE_INCOMPLETE" λ _. after λ found _.
        checked "AUTHORITY_SCOPE_DEFAULT_CONFLICT"
          λ same. Ensures-ok (ap some (same_scope-eq found scope same)))

-- ===== src/Query/Converge/Authorized.antt =====
-- What the rows that `convergeCurrentExecutionMission` returns say, and in which scope.
use mathlib.Core.Option.{some-injective}
use smpp_telemetry_platform.Base.{
  ℕ, ◌≡◌, refl, sym, ap, ◌∙◌, String, true, not, Option, none, some, List, [], ◌∷◌, str_eq, eq_iff,
  arith, All, not-eq_false,
}
use smpp_telemetry_platform.Base.Result.{
  Result, ok, err, Ensures, after, checked, Ensures-ok, holding, on_test,
}
use smpp_telemetry_platform.Json.{
  Value, Fields, str, get, undefined, null, bool, num, arr, obj, field,
}
use smpp_telemetry_platform.Json.Equal.{strict_eq-str, str-strict_eq}
use smpp_telemetry_platform.Query.Urn.{UriCodec, EntityUrn}
use smpp_telemetry_platform.Query.Scope.{
  AuthorityScope, scope_from_row, read_entity_urn, scoped_entity_urn,
}
use smpp_telemetry_platform.Query.Scope.Same.{same_scope-eq}
use smpp_telemetry_platform.Query.Converge.{
  RelationRow, row_string, is, as_expected, text_or_empty, same_entities, shared_scope, is_complete,
  binds_task, relation_row, rows_of, converge_current_execution_mission, unmatched,
}

as_expected-inside :
    (expected : Option AuthorityScope) (scope s : AuthorityScope)
    → as_expected expected scope ≡ true
    → expected ≡ some s
    → scope ≡ s
as_expected-inside none scope s h e = cc
as_expected-inside (some t) scope s h e = same_scope-eq scope t h ∙ some-injective t s e

text_or_empty-filled :
    (v : Value) → not (str_eq (text_or_empty v) "") ≡ true → v ≡ str (text_or_empty v)
text_or_empty-filled (str text) h = refl
text_or_empty-filled undefined h = cc
text_or_empty-filled null h = cc
text_or_empty-filled (bool b) h = cc
text_or_empty-filled (num n) h = cc
text_or_empty-filled (arr items) h = cc
text_or_empty-filled (obj fields) h = cc

row_string-filled :
    (row : Fields) (key : String)
    → not (str_eq (row_string row key) "") ≡ true
    → get row key ≡ str (row_string row key)
unfolding row_string
row_string-filled row key h = text_or_empty-filled (get row key) h

module _ (uri : UriCodec) (date_parse : String → Option ℕ) (parse : String → Option Value)
    (sha1 : String → List ℕ) (state : Fields) where
  -- the entities of the relation's URNs, which are the state's, in the same scope
  pub record SameEntities (relation : Fields) (scope : AuthorityScope) : Type 0 where
    pub task : EntityUrn
    pub execution : EntityUrn
    pub task_urn : read_entity_urn uri (get relation "source_entity_urn") ≡ ok task
    pub execution_urn : read_entity_urn uri (get relation "target_entity_urn") ≡ ok execution
    -- the relation's own tenant, project, environment and source, with its target's deployment
    pub of_relation :
        scope_from_row uri (field "source_deployment_id" (str execution.deployment_id) relation)
        ≡ ok scope
    pub task_type : task.entity_type ≡ "task"
    pub execution_type : execution.entity_type ≡ "execution"
    pub task_id : get state "task_id" ≡ str task.entity_id
    pub execution_id : get state "external_execution_id" ≡ str execution.entity_id
    pub same : same_entities scope state relation task execution ≡ true

  pub record IsAuthorized (relations : List Fields) (expected : Option AuthorityScope)
      (row : RelationRow) : Type 0 where
    pub relation : Fields
    pub single : relations ≡ relation ∷ []
    pub exact : get state "relation_status" ≡ str "exact"
    pub scope : AuthorityScope
    pub of_state : scope_from_row uri state ≡ ok scope
    pub inside : (s : AuthorityScope) → expected ≡ some s → scope ≡ s
    pub source :
        scoped_entity_urn uri scope "execution" row.source_entity_id ≡ ok row.source_entity_urn
    pub target :
        scoped_entity_urn uri scope "device_mission" row.target_entity_id ≡ ok row.target_entity_urn
    pub execution : get state "external_execution_id" ≡ str row.source_entity_id
    pub mission : get state "device_mission_id" ≡ str row.target_entity_id
    pub claims : SameEntities relation scope
    pub bound : binds_task state relation ≡ true

  same_entities-same :
      (scope : AuthorityScope) (relation : Fields) (task execution : EntityUrn)
      → same_entities scope state relation task execution ≡ true
      → (task.entity_type ≡ "task")
        × (execution.entity_type ≡ "execution")
        × (get state "task_id" ≡ str task.entity_id)
        × (get state "external_execution_id" ≡ str execution.entity_id)
  unfolding same_entities
  same_entities-same scope relation task execution h = (
    (eq_iff task.entity_type "task").0 (ground (arith, h)),
    (eq_iff execution.entity_type "execution").0 (ground (arith, h)),
    str-strict_eq task.entity_id (get state "task_id") (ground (arith, h)),
    str-strict_eq execution.entity_id (get state "external_execution_id") (ground (arith, h)),
  )

  record Shared (relation : Fields) (expected : Option AuthorityScope) (scope : AuthorityScope)
      : Type 0 where
    pub of_state : scope_from_row uri state ≡ ok scope
    pub inside : (s : AuthorityScope) → expected ≡ some s → scope ≡ s
    pub claims : SameEntities relation scope

  shared_scope-Shared :
      (relation : Fields) (expected : Option AuthorityScope)
      → Ensures
          (Shared relation expected)
          (shared_scope uri date_parse parse sha1 state relation expected)
  unfolding shared_scope
  shared_scope-Shared relation expected = after λ scope of_state. after λ task task_urn.
      after λ execution execution_urn. after λ other of_relation. checked unmatched λ alike.
        checked unmatched λ given. checked unmatched λ same. after λ refs _. after λ task_ref _.
          after λ execution_ref _.
            let entities = same_entities-same scope relation task execution same in
            Ensures-ok (record {
              of_state = of_state;
              inside = λ s e. as_expected-inside expected scope s given e;
              claims = record {
                task = task;
                execution = execution;
                task_urn = task_urn;
                execution_urn = execution_urn;
                of_relation = of_relation ∙ ap ok (sym (same_scope-eq scope other alike));
                task_type = entities.0;
                execution_type = entities.1;
                task_id = entities.2;
                execution_id = entities.3;
                same = same;
              };
            })

  -- a row from the state's members
  record Written (scope : AuthorityScope) (row : RelationRow) : Type 0 where
    pub source :
        scoped_entity_urn uri scope "execution" row.source_entity_id ≡ ok row.source_entity_urn
    pub target :
        scoped_entity_urn uri scope "device_mission" row.target_entity_id ≡ ok row.target_entity_urn
    pub execution : row.source_entity_id ≡ row_string state "external_execution_id"
    pub mission : row.target_entity_id ≡ row_string state "device_mission_id"

  relation_row-Written :
      (scope : AuthorityScope) (relation : Fields)
      → Ensures (Written scope) (relation_row uri date_parse parse sha1 scope state relation)
  unfolding relation_row
  relation_row-Written scope relation = after λ source_urn source. after λ target_urn target.
      after λ task_time _. after λ mission_time _. after λ observed _.
        Ensures-ok (record { source = source; target = target; execution = refl; mission = refl })

  is_complete-filled :
      (relation : Fields)
      → is_complete state relation ≡ true
      → (get state "external_execution_id" ≡ str (row_string state "external_execution_id"))
        × (get state "device_mission_id" ≡ str (row_string state "device_mission_id"))
  unfolding is_complete
  is_complete-filled relation h = (
    row_string-filled state "external_execution_id" (ground (arith, h)),
    row_string-filled state "device_mission_id" (ground (arith, h)),
  )

  rows_of-IsAuthorized :
      (relation : Fields) (expected : Option AuthorityScope)
      → get state "relation_status" ≡ str "exact"
      → (scoped : Result AuthorityScope) → Ensures (Shared relation expected) scoped
      → Ensures
          (All (IsAuthorized (relation ∷ []) expected))
          (rows_of uri date_parse parse sha1 state relation scoped)
  unfolding rows_of
  rows_of-IsAuthorized relation expected exact (err code) shared = Ensures-ok tt
  rows_of-IsAuthorized relation expected exact (ok scope) shared =
      on_test (not (is_complete state relation)) (λ _. Ensures-ok tt)
        (λ complete.
          on_test (not (binds_task state relation)) (λ _. Ensures-ok tt)
            (λ binds. holding (relation_row-Written scope relation) λ row written.
              let agreed = shared.returns scope refl in
              let (execution, mission) = is_complete-filled relation (not-eq_false _ complete) in
              Ensures-ok (
                record {
                  relation = relation;
                  single = refl;
                  exact = exact;
                  scope = scope;
                  of_state = agreed.of_state;
                  inside = agreed.inside;
                  source = written.source;
                  target = written.target;
                  execution = execution ∙ ap str (sym written.execution);
                  mission = mission ∙ ap str (sym written.mission);
                  claims = agreed.claims;
                  bound = not-eq_false _ binds;
                },
                tt,
              )))

-- Every row of the execution's current mission comes of one state whose relation is exact and one
-- relation of the task, which make the same claims in the same scope. The row names the execution and
-- the mission of the state, by their URNs in that scope, which is the reader's if the reader has one.
pub converge-IsAuthorized :
    (uri : UriCodec) (date_parse : String → Option ℕ) (parse : String → Option Value)
    (sha1 : String → List ℕ) (state : Fields) (relations : List Fields)
    (expected : Option AuthorityScope)
    → Ensures (All (IsAuthorized uri date_parse parse sha1 state relations expected)) (
        converge_current_execution_mission uri date_parse parse sha1
          (some state)
          relations
          expected)
unfolding converge_current_execution_mission
converge-IsAuthorized uri date_parse parse sha1 state [] expected = Ensures-ok tt
converge-IsAuthorized uri date_parse parse sha1 state (relation ∷ []) expected =
    on_test (is state "relation_status" "exact")
      (λ exact.
        rows_of-IsAuthorized uri date_parse parse sha1 state relation expected
          (strict_eq-str (get state "relation_status") "exact" exact)
          (shared_scope uri date_parse parse sha1 state relation expected)
          (shared_scope-Shared uri date_parse parse sha1 state relation expected))
      (λ _. Ensures-ok tt)
converge-IsAuthorized uri date_parse parse sha1 state (relation ∷ other ∷ others) expected =
    Ensures-ok tt

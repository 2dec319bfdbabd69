-- ===== src/Query/Scope.antt =====
-- telemetry-dashboard/query-api/src/scope.ts: the scope that a reader's authority has, read from the
-- members of an object, a row of the store or the parameters of a request. A scope in the store's
-- SQL is a text; `sqlString` is of clickhouse.ts.
pub mod Same
use smpp_telemetry_platform.Base.{
  ℕ, suc, String, Bool, true, false, not, ◌&&◌, ◌||◌, Option, none, some, List, [], ◌∷◌, ◌==◌,
  str_eq, if◌then◌else◌, length, take, all, any, map,
}
use Prim.Native.String.{◌∷◌ as text_cons}
use Prim.Native.Char.{Char, code}
use smpp_telemetry_platform.Base.Text.{one_of}
use smpp_telemetry_platform.Base.Result.{Result, ok, err, ◌>>=◌, ◌>>◌, require}
use smpp_telemetry_platform.Json.{
  Value, Fields, undefined, null, bool, num, str, arr, obj, get, keys, field, end,
}
use smpp_telemetry_platform.Query.Urn.{
  UriCodec, EntityUrn, identity, encode_entity_urn, parse_entity_urn, ◌⋯◌,
}

pub record AuthorityScope : Type 0 where
  pub tenant_id : String
  pub project_id : String
  pub environment : String
  pub smpp_source_id : String
  pub deployment_id : String

-- `SCOPE_COLUMNS`, in its order: a key and its column
abbrev pub scope_columns : List (String × String)
scope_columns =
    ("tenantId", "tenant_id")
    ∷ ("projectId", "project_id")
    ∷ ("environment", "environment")
    ∷ ("smppSourceId", "smpp_source_id")
    ∷ ("deploymentId", "source_deployment_id")
    ∷ []

abbrev pub scope_keys : List String
scope_keys = map (λ c. c.0) scope_columns

abbrev pub scope_invalid : String
scope_invalid = "AUTHORITY_SCOPE_INVALID"

-- `scope[key]`
abbrev pub member : AuthorityScope → String → String
member scope key =
    if str_eq key "tenantId"
    then scope.tenant_id
    else if str_eq key "projectId"
    then scope.project_id
    else if str_eq key "environment"
    then scope.environment
    else if str_eq key "smppSourceId"
    then scope.smpp_source_id
    else scope.deployment_id

-- `sameScope`
unfoldable pub same_scope : AuthorityScope → AuthorityScope → Bool
same_scope left right = all (λ key. str_eq (member left key) (member right key)) scope_keys

-- `text.replaceAll(mark, "\\" + mark)`
unfoldable pub escape_all : Char → String → String
escape_all mark String.[] = ""
escape_all mark (String.◌∷◌ c s) =
    if code c == code mark
    then text_cons "\\" (text_cons c (escape_all mark s))
    else text_cons c (escape_all mark s)

-- `sqlString`
unfoldable pub sql_string : String → String
unfolding escape_all
sql_string value = "'" ⋯ escape_all "'" (escape_all "\\" value) ⋯ "'"

-- `texts.join(" AND ")`
unfoldable pub join_and : List String → String
join_and [] = ""
join_and (t ∷ []) = t
join_and (t ∷ u ∷ us) = t ⋯ " AND " ⋯ join_and (u ∷ us)

abbrev pub equation : AuthorityScope → String × String → String
equation scope c = c.1 ⋯ "=" ⋯ sql_string (member scope c.0)

-- the row's object of the scope's keys
abbrev pub of_columns : Fields → List (String × String) → Fields
of_columns row [] = end
of_columns row (c ∷ cs) = field c.0 (get row c.1) (of_columns row cs)

module _ (uri : UriCodec) where
  -- `authorityIdentity`
  unfoldable pub authority_identity : String → Value → Result String
  authority_identity code value = identity uri code value

  unfoldable pub validate_authority_scope : Value → Result AuthorityScope
  unfolding authority_identity
  validate_authority_scope (obj input) = do
    require (all (one_of scope_keys) (keys input)) scope_invalid
    tenant_id ← authority_identity scope_invalid (get input "tenantId")
    project_id ← authority_identity scope_invalid (get input "projectId")
    environment ← authority_identity scope_invalid (get input "environment")
    smpp_source_id ← authority_identity scope_invalid (get input "smppSourceId")
    deployment_id ← authority_identity scope_invalid (get input "deploymentId")
    ok (record {
      tenant_id = tenant_id;
      project_id = project_id;
      environment = environment;
      smpp_source_id = smpp_source_id;
      deployment_id = deployment_id;
    })
  validate_authority_scope _ = err scope_invalid

  unfoldable pub scope_from_row : Fields → Result AuthorityScope
  unfolding validate_authority_scope
  scope_from_row row = validate_authority_scope (obj (of_columns row scope_columns))

  -- `scopeSql`; the scope is checked again, as an object of its members
  unfoldable pub scope_sql : AuthorityScope → Bool → Result String
  unfolding validate_authority_scope join_and
  scope_sql scope include_deployment = do
    checked ← validate_authority_scope (
        obj (
          field "tenantId" (str scope.tenant_id) (
            field "projectId" (str scope.project_id) (
              field "environment" (str scope.environment) (
                field "smppSourceId" (str scope.smpp_source_id)
                  (field "deploymentId" (str scope.deployment_id) end))))))
    let parts = (λ (cs : List (String × String)). join_and (map (equation scope) cs))
    ok (if include_deployment then parts scope_columns else parts (take 4 scope_columns))

  -- `encodeEntityUrn` and `parseEntityUrn`, which throw the API's own code
  abbrev pub urn_error {ℓ} : {A : Type ℓ} → Result A → Result A
  urn_error (ok value) = ok value
  urn_error (err _) = err "AUTHORITY_URN_INVALID"

  unfoldable pub scoped_entity_urn : AuthorityScope → String → String → Result String
  scoped_entity_urn scope entity_type entity_id = urn_error (
      encode_entity_urn uri (record {
        tenant_id = scope.tenant_id;
        source_system = "smpp";
        deployment_id = scope.deployment_id;
        entity_type = entity_type;
        entity_id = entity_id;
      }))

  unfoldable pub read_entity_urn : Value → Result EntityUrn
  read_entity_urn value = urn_error (parse_entity_urn uri value)

-- The parameters of a request, in order, with their values.
abbrev pub Parameters : Type 0
Parameters = List (String × String)

-- `parameters.getAll(key)`
unfoldable pub get_all : Parameters → String → List String
get_all [] key = []
get_all (p ∷ ps) key = if str_eq p.0 key then p.1 ∷ get_all ps key else get_all ps key

abbrev pub has : Parameters → String → Bool
has ps key = any (λ p. str_eq p.0 key) ps

-- `parameters.get(key)`
abbrev pub get_parameter : Parameters → String → Value
get_parameter [] key = null
get_parameter (p ∷ ps) key = if str_eq p.0 key then str p.1 else get_parameter ps key

abbrev pub no_conflict : Option AuthorityScope → AuthorityScope → Bool
no_conflict none scope = true
no_conflict (some given) scope = same_scope scope given

module _ (uri : UriCodec) where
  -- `requestedAuthorityScope`
  unfoldable pub requested_authority_scope :
      Parameters → Option AuthorityScope → Result (Option AuthorityScope)
  unfolding validate_authority_scope get_all
  requested_authority_scope ps given = if not (any (has ps) scope_keys) then ok given else do
    require (all (has ps) scope_keys && all (λ key. length (get_all ps key) == 1) scope_keys)
        "AUTHORITY_SCOPE_INCOMPLETE"
    scope ← validate_authority_scope uri (
        obj (
          field "tenantId" (get_parameter ps "tenantId") (
            field "projectId" (get_parameter ps "projectId") (
              field "environment" (get_parameter ps "environment") (
                field "smppSourceId" (get_parameter ps "smppSourceId")
                  (field "deploymentId" (get_parameter ps "deploymentId") end))))))
    require (no_conflict given scope) "AUTHORITY_SCOPE_DEFAULT_CONFLICT"
    ok (some scope)

-- ===== src/Validation/Ingress.antt =====
-- `validateTrustedIngress` of telemetry-processor/src/packages/validation/validation.ts.
use smpp_telemetry_platform.Base.{
  Bool, true, false, not, ◌&&◌, ◌||◌, String, List, [], ◌∷◌, str_eq, if◌then◌else◌,
}
use smpp_telemetry_platform.Base.Text.{one_of}
use smpp_telemetry_platform.Base.Result.{Result, ok, ◌>>◌, require}
use smpp_telemetry_platform.Json.{Value, Fields, str, get, has_key, coalesce, strict_eq}

pub record TrustedContext : Type 0 where
  pub collector_id : String
  pub trust_domain : String
  pub deployment_id : String
  pub ingress_mode : String

pub record IngressOptions : Type 0 where
  pub require_collector_id : Bool
  pub allowed_collector_ids : List String

-- `{ ...resource, ...attributes }[key]`
unfoldable pub merged : Fields → Fields → String → Value
merged resource attributes key =
    if has_key attributes key then get attributes key else get resource key

unfoldable pub no_restriction : List String → Bool
no_restriction [] = true
no_restriction (id ∷ ids) = false

-- `text_of` is JavaScript's `String`
module _ (text_of : Value → String) where
  -- `String(attrs[key] ?? otherwise)`
  unfoldable pub attribute_text : Fields → Fields → String → String → String
  unfolding merged
  attribute_text resource attributes key otherwise =
      text_of (coalesce (merged resource attributes key) (str otherwise))

  unfoldable pub validate_trusted_ingress : Fields → Fields → IngressOptions → Result TrustedContext
  unfolding attribute_text no_restriction merged
  validate_trusted_ingress resource attributes options = do
    require (strict_eq (merged resource attributes "telemetry.channel") (str "smpp.provider_ops"))
        "CHANNEL_INVALID"
    require (strict_eq (merged resource attributes "telemetry.source.system") (str "smpp"))
        "SOURCE_SYSTEM_INVALID"
    let collector_id = attribute_text resource attributes "telemetry.source.collector_id" ""
    require (not (options.require_collector_id && str_eq collector_id "")) "COLLECTOR_ID_REQUIRED"
    require
        (no_restriction options.allowed_collector_ids
          || one_of options.allowed_collector_ids collector_id)
        "COLLECTOR_ID_NOT_ALLOWED"
    let trust_domain = attribute_text resource attributes "telemetry.source.trust_domain" ""
    let deployment_id = attribute_text resource attributes "telemetry.source.deployment_id" ""
    require (not (str_eq trust_domain "")) "TRUST_DOMAIN_REQUIRED"
    require (not (str_eq deployment_id "")) "DEPLOYMENT_ID_REQUIRED"
    ok (record {
      collector_id = collector_id;
      trust_domain = trust_domain;
      deployment_id = deployment_id;
      ingress_mode = attribute_text resource attributes "telemetry.ingress.mode" "gateway";
    })

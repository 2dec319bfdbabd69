-- ===== src/Query/Urn.antt =====
-- packages/telemetry-types/src/urn.ts: the URN of an entity, and `authorityIdentity` of
-- telemetry-dashboard/query-api/src/scope.ts, which makes the same checks.
pub mod Split
pub mod Inverse
use Prim.Native.Char.{code}
use Prim.Native.String.{◌++◌ as text_append}
use smpp_telemetry_platform.Base.{
  ℕ, zero, suc, String, Bool, true, false, not, ◌&&◌, ◌||◌, Option, none, some, List, [], ◌∷◌, leb,
  ltb, ◌==◌, any, str_eq, if◌then◌else◌, length,
}
use smpp_telemetry_platform.Base.Text.{codes, text_length}
use smpp_telemetry_platform.Base.Result.{Result, ok, err, ◌>>=◌, ◌>>◌, require, some_or}
use smpp_telemetry_platform.Json.{Value, undefined, null, bool, num, str, arr, obj}
use smpp_telemetry_platform.Query.Urn.Split.{split}

infixr 65 ◌⋯◌
abbrev pub ◌⋯◌ : String → String → String
s ⋯ t = text_append s t

abbrev pub urn_invalid : String
urn_invalid = "TELEMETRY_URN_INVALID"

-- `encodeURIComponent` and `decodeURIComponent`, and `none` where they throw
pub record UriCodec : Type 0 where
  pub encode_component : String → Option String
  pub decode_component : String → Option String

pub record EntityUrn : Type 0 where
  pub tenant_id : String
  pub source_system : String
  pub deployment_id : String
  pub entity_type : String
  pub entity_id : String

-- `[\u0000-\u001f\u007f]`
unfoldable pub is_control : ℕ → Bool
is_control c = leb c 0x1f || c == 0x7f

abbrev pub encodes : Option String → Bool
encodes none = false
encodes (some _) = true

-- `[a-z0-9_-]`
unfoldable pub is_name_code : ℕ → Bool
is_name_code c = leb b'a' c && leb c b'z' || leb b'0' c && leb c b'9' || c == b'_' || c == b'-'

unfoldable pub all_name_codes : List ℕ → Bool
unfolding is_name_code
all_name_codes [] = true
all_name_codes (c ∷ cs) = is_name_code c && all_name_codes cs

unfoldable pub name_of_codes : List ℕ → Bool
unfolding all_name_codes
name_of_codes [] = false
name_of_codes (c ∷ cs) = (leb b'a' c && leb c b'z') && all_name_codes cs && leb (length cs) 63

-- `/^[a-z][a-z0-9_-]{0,63}$/`
unfoldable pub is_name : String → Bool
unfolding name_of_codes
is_name text = name_of_codes (codes text)

module _ (uri : UriCodec) where
  unfoldable pub is_identity : String → Bool
  unfolding is_control
  is_identity text =
      not (str_eq text "")
      && leb (text_length text) 512
      && not (any is_control (codes text))
      && encodes (uri.encode_component text)

  -- `identity`, on a member that may not be a text
  unfoldable pub identity : String → Value → Result String
  unfolding is_identity
  identity code (str text) = require (is_identity text) code >> ok text
  identity code _ = err code

  -- `encodeEntityUrn`
  unfoldable pub encode_entity_urn : EntityUrn → Result String
  unfolding is_identity is_name
  encode_entity_urn value = do
    require (is_identity value.tenant_id) urn_invalid
    require (is_identity value.source_system) urn_invalid
    require (is_identity value.deployment_id) urn_invalid
    require (is_identity value.entity_type) urn_invalid
    require (is_identity value.entity_id) urn_invalid
    require (is_name value.source_system && is_name value.entity_type) urn_invalid
    tenant ← some_or urn_invalid (uri.encode_component value.tenant_id)
    deployment ← some_or urn_invalid (uri.encode_component value.deployment_id)
    entity ← some_or urn_invalid (uri.encode_component value.entity_id)
    ok (
        "urn:telemetry:" ⋯ tenant ⋯ ":" ⋯ value.source_system ⋯ ":" ⋯ deployment ⋯ ":"
        ⋯ value.entity_type ⋯ ":" ⋯ entity)

  -- the seven parts
  unfoldable pub parse_parts : List String → Result EntityUrn
  parse_parts (urn ∷ telemetry ∷ tenant ∷ source ∷ deployment ∷ type ∷ entity ∷ []) = do
    require (str_eq urn "urn" && str_eq telemetry "telemetry") urn_invalid
    tenant_id ← some_or urn_invalid (uri.decode_component tenant)
    deployment_id ← some_or urn_invalid (uri.decode_component deployment)
    entity_id ← some_or urn_invalid (uri.decode_component entity)
    ok (record {
      tenant_id = tenant_id;
      source_system = source;
      deployment_id = deployment_id;
      entity_type = type;
      entity_id = entity_id;
    })
  parse_parts _ = err urn_invalid

  -- `parseEntityUrn`
  unfoldable pub parse_entity_urn : Value → Result EntityUrn
  unfolding parse_parts encode_entity_urn
  parse_entity_urn (str text) = do
    value ← parse_parts (split text)
    encoded ← encode_entity_urn value
    require (str_eq encoded text) urn_invalid
    ok value
  parse_entity_urn _ = err urn_invalid

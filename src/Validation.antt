-- ===== src/Validation.antt =====
-- `validateEnvelope` of telemetry-processor/src/packages/validation/validation.ts. A failure is its
-- code; the messages beside the codes are left out.
pub mod Payload
pub mod Ingress
pub mod Envelope
pub mod Accepted
pub mod Bounded
use smpp_telemetry_platform.Base.{
  ℕ, String, List, [], ◌∷◌, ◌++◌, ◌||◌, ◌&&◌, Bool, leb, ◌==◌, Option,
}
use smpp_telemetry_platform.Base.Pattern.{
  Piece, one, finish, times, literal, is_digit_code, is_lower,
}
use smpp_telemetry_platform.Json.{Value}
use smpp_telemetry_platform.Canonical.{Printer}

-- What JavaScript and node provide: `String`, `Date.parse` (in milliseconds after the earliest
-- Date), the printing of canonical JSON, SHA-256, and the bytes of `JSON.stringify`.
pub record Host : Type 0 where
  pub text_of : Value → String
  pub date_parse : String → Option ℕ
  pub printer : Printer
  pub sha256 : String → String
  pub json_bytes : Value → ℕ

abbrev pub allowed_types : List String
allowed_types =
    "provider.task.lifecycle" ∷ "provider.command.lifecycle" ∷ "provider.scheduler.decision"
    ∷ "provider.recovery.lifecycle" ∷ "provider.ttl.lifecycle" ∷ "provider.resource.state"
    ∷ "provider.resource.metric" ∷ "provider.resource.health" ∷ "provider.execution.progress"
    ∷ "provider.business_event.source.lifecycle" ∷ "provider.business_event.ingest.lifecycle"
    ∷ "provider.business_event.publication.lifecycle" ∷ "provider.business_event.stream.lifecycle"
    ∷ "provider.business_event.continuity" ∷ "provider.business_event.delivery.lifecycle"
    ∷ "provider.business_event.relation.lifecycle" ∷ []

abbrev pub allowed_event_categories : List String
allowed_event_categories =
    "task.lifecycle" ∷ "command.lifecycle" ∷ "command.dispatch" ∷ "scheduler.decision"
    ∷ "recovery.lifecycle" ∷ "ttl.lifecycle" ∷ "resource.state" ∷ "resource.metric"
    ∷ "resource.health" ∷ "execution.progress" ∷ "business_event.lifecycle" ∷ []

abbrev pub allowed_delivery_classes : List String
allowed_delivery_classes = "audit" ∷ "operational" ∷ []

abbrev pub expected_categories : List (String × String)
expected_categories =
    ("provider.task.lifecycle", "task.lifecycle")
    ∷ ("provider.command.lifecycle", "command.lifecycle")
    ∷ ("provider.scheduler.decision", "scheduler.decision")
    ∷ ("provider.recovery.lifecycle", "recovery.lifecycle")
    ∷ ("provider.ttl.lifecycle", "ttl.lifecycle")
    ∷ ("provider.resource.state", "resource.state")
    ∷ ("provider.resource.metric", "resource.metric")
    ∷ ("provider.resource.health", "resource.health")
    ∷ ("provider.execution.progress", "execution.progress")
    ∷ []

-- `[0-9a-f]`
abbrev is_hex : ℕ → Bool
is_hex c = is_digit_code c || leb b'a' c && leb c b'f'

-- `[0-9a-f]` with the flag `i`
abbrev is_hex_fold : ℕ → Bool
is_hex_fold c = is_hex c || leb b'A' c && leb c b'F'

abbrev is_version : ℕ → Bool
is_version c = leb b'1' c && leb c b'5'

abbrev is_variant : ℕ → Bool
is_variant c = c == b'8' || c == b'9' || c == b'a' || c == b'b' || c == b'A' || c == b'B'

-- UUID
abbrev pub uuid : List Piece
uuid =
    times 8 is_hex_fold
    ++ literal "-"
    ++ times 4 is_hex_fold
    ++ literal "-"
    ++ one is_version ∷ times 3 is_hex_fold
    ++ literal "-"
    ++ one is_variant ∷ times 3 is_hex_fold
    ++ literal "-"
    ++ times 12 is_hex_fold
    ++ finish ∷ []

-- HASH, TRACE_ID and SPAN_ID
abbrev pub hex_digits : ℕ → List Piece
hex_digits n = times n is_hex ++ finish ∷ []

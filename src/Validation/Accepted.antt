-- ===== src/Validation/Accepted.antt =====
-- What an envelope that `validateEnvelope` accepts has passed, composed with what each part shows.
use smpp_telemetry_platform.Base.{
  not-eq_true, &&-eq_true, ℕ, ◌≤◌, ◌≡◌, refl, true, false, String, all, arith,
}
use smpp_telemetry_platform.Base.Result.{
  ok, Ensures, after, holding, checked, required, Ensures-ok, Ensures-err,
}
use smpp_telemetry_platform.Json.{Value, Fields, obj, str, end, get, strict_eq, coalesce, has_key}
use smpp_telemetry_platform.Json.Equal.{strict_eq-str, str-strict_eq}
use smpp_telemetry_platform.Canonical.Hash.{record_hash}
use smpp_telemetry_platform.Correlation.{Correlation, normalize_provider_correlation}
use smpp_telemetry_platform.Correlation.Origin.{IsOrigin, normalize_provider_correlation-IsOrigin}
use smpp_telemetry_platform.Runtime.Checks.{object}
use smpp_telemetry_platform.Runtime.Semantic.{Semantic}
use smpp_telemetry_platform.Runtime.Inspect.{inspect}
use smpp_telemetry_platform.Runtime.Sound.{IsSound}
use smpp_telemetry_platform.Runtime.Sound.Whole.{inspect-IsSound}
use smpp_telemetry_platform.Validation.{Host}
use smpp_telemetry_platform.Validation.Payload.{Limits}
use smpp_telemetry_platform.Validation.Bounded.{IsBounded, nodes_of, scan-IsBounded}
use smpp_telemetry_platform.Validation.Envelope.{
  required_keys, is_time, time_of, is_before, check_header, check_fields, check_times,
  check_contract, check_hash, validate_envelope, is_filled, source_keys,
}

-- the semantic of an envelope, with the attributes and the payload it was read from
pub record HasSemantic (host : Host) (e : Fields) : Type 0 where
  pub attributes : Fields
  pub payload : Fields
  pub attributes_at : coalesce (get e "attributes") (obj end) ≡ obj attributes
  pub payload_at : coalesce (get e "payload") (obj end) ≡ obj payload
  pub semantic : Semantic
  pub inspected : inspect host.date_parse e ≡ ok semantic
  pub sound : IsSound e attributes payload semantic

pub record IsAccepted (host : Host) (e otlp : Fields) (limits : Limits) (max_event_bytes : ℕ)
    : Type 0 where
  pub complete : all (has_key e) required_keys ≡ true
  pub named : get e "schemaName" ≡ str "sdar.provider.ops.event"
  pub versioned : get e "schemaVersion" ≡ str "1.1.0"
  pub sources : all (λ key. is_filled (get e key)) source_keys ≡ true
  pub occurred : is_time host (get e "occurredAt") ≡ true
  pub emitted : is_time host (get e "emittedAt") ≡ true
  pub ordered :
      is_before (time_of host (get e "emittedAt")) (time_of host (get e "occurredAt")) ≡ false
  pub claims : Correlation
  pub claimed : normalize_provider_correlation e ≡ ok claims
  pub origin : IsOrigin claims
  pub contract_hash : strict_eq (get otlp "sdar.record.hash") (get e "recordHash") ≡ true
  pub hash : String
  pub hashed : record_hash host.printer host.sha256 e ≡ ok hash
  pub hash_at : get e "recordHash" ≡ str hash
  pub semantic : HasSemantic host e
  pub bounded : IsBounded limits 0 (obj e)
  pub few : nodes_of (obj e) ≤ limits.max_nodes
  pub small : host.json_bytes (obj e) ≤ max_event_bytes

object-obj : (v : Value) (code : String) → Ensures (λ f. v ≡ obj f) (object v code)
unfolding object
object-obj (obj f) code = Ensures-ok refl
object-obj _ code = Ensures-err

inspect-parts :
    (host : Host) (e : Fields) (s : Semantic)
    → inspect host.date_parse e ≡ ok s
    → (a : Fields) × (p : Fields) × (coalesce (get e "attributes") (obj end) ≡ obj a)
      × (coalesce (get e "payload") (obj end) ≡ obj p)
unfolding inspect
inspect-parts host e s h = both.returns s h
  where
    both :
        Ensures
          (λ t.
            (a : Fields) × (p : Fields) × (coalesce (get e "attributes") (obj end) ≡ obj a)
            × (coalesce (get e "payload") (obj end) ≡ obj p))
          (inspect host.date_parse e)
    both =
        holding
          (object-obj (coalesce (get e "attributes") (obj end)) "SMPP_RUNTIME_ATTRIBUTES_INVALID")
          λ a ea.
            holding
              (object-obj (coalesce (get e "payload") (obj end)) "SMPP_RUNTIME_PAYLOAD_INVALID")
              λ p ep. record { returns = λ t r. (a, p, ea, ep) }

-- `inspect` returns only where the attributes and the payload are objects.
inspect-HasSemantic :
    (host : Host) (e : Fields) → Ensures (λ s. HasSemantic host e) (inspect host.date_parse e)
inspect-HasSemantic host e = record {
  returns = λ s h.
      let (a, p, ea, ep) = inspect-parts host e s h in
      record {
        attributes = a;
        payload = p;
        attributes_at = ea;
        payload_at = ep;
        semantic = s;
        inspected = h;
        sound = (inspect-IsSound host.date_parse e a p ea ep h).0;
      };
}

module _ (host : Host) (e : Fields) where
  header-holds :
      Ensures
        (λ d.
          (all (has_key e) required_keys ≡ true)
          × (get e "schemaName" ≡ str "sdar.provider.ops.event")
          × (get e "schemaVersion" ≡ str "1.1.0"))
        (check_header host e)
  unfolding check_header
  header-holds = checked _ λ complete. checked _ λ named. checked _ λ versioned. checked _ λ a.
      checked _ λ b. checked _ λ c. checked _ λ d. required _ λ f. (
        complete,
        strict_eq-str (get e "schemaName") "sdar.provider.ops.event" named,
        strict_eq-str (get e "schemaVersion") "1.1.0" versioned,
      )

  fields-hold :
      Ensures (λ d. all (λ key. is_filled (get e key)) source_keys ≡ true) (check_fields host e)
  unfolding check_fields
  fields-hold =
      checked _ λ sources.
        checked _ λ a. checked _ λ b. checked _ λ c. checked _ λ d. required _ λ f. sources

  times-hold :
      Ensures
        (λ d.
          (is_time host (get e "occurredAt") ≡ true)
          × (is_time host (get e "emittedAt") ≡ true)
          × (is_before (time_of host (get e "emittedAt")) (time_of host (get e "occurredAt"))
              ≡ false))
        (check_times host e)
  unfolding check_times
  times-hold = checked _ λ both.
      required _
        λ ordered. ((&&-eq_true _ _ both).0, (&&-eq_true _ _ both).1, not-eq_true _ ordered)

  contract-holds :
      (otlp : Fields)
      → Ensures
          (λ d. strict_eq (get otlp "sdar.record.hash") (get e "recordHash") ≡ true)
          (check_contract host e otlp)
  unfolding check_contract
  contract-holds otlp =
      checked _
        λ a. checked _ λ b. checked _ λ c. checked _ λ d. checked _ λ same. required _ λ f. same

  hash-holds :
      Ensures
        (λ d.
          (h : String) × (record_hash host.printer host.sha256 e ≡ ok h)
          × (get e "recordHash" ≡ str h))
        (check_hash host e)
  unfolding check_hash
  hash-holds =
      after λ h hashed. required _ λ same. (h, hashed, str-strict_eq h (get e "recordHash") same)

  -- An accepted envelope has its required fields, names and versions; its times exist and are in
  -- order; its correlation keeps the origin's rules; its record hash is the computed one and the
  -- OTLP record's; its semantic satisfies the invariant of the inspection; and it is within
  -- all limits.
  pub validate_envelope-IsAccepted :
      (otlp : Fields) (limits : Limits) (max_event_bytes : ℕ)
      → Ensures
          (λ d. IsAccepted host e otlp limits max_event_bytes)
          (validate_envelope host (obj e) otlp limits max_event_bytes)
  unfolding validate_envelope
  validate_envelope-IsAccepted otlp limits max_event_bytes = holding header-holds λ d header.
      holding fields-hold λ d sources. holding times-hold λ d times. after λ d family.
        after λ claims claimed. holding (contract-holds otlp) λ d contract.
          holding hash-holds λ d (h, hashed, hash_at).
            holding (inspect-HasSemantic host e) λ s semantic.
              holding (scan-IsBounded limits (obj e)) λ n within. required _ λ small. record {
                complete = header.0;
                named = header.1;
                versioned = header.2;
                sources = sources;
                occurred = times.0;
                emitted = times.1;
                ordered = times.2;
                claims = claims;
                claimed = claimed;
                origin = (normalize_provider_correlation-IsOrigin e).returns claims claimed;
                contract_hash = contract;
                hash = h;
                hashed = hashed;
                hash_at = hash_at;
                semantic = semantic;
                bounded = within.0;
                few = within.2;
                small = ground (arith, small);
              }

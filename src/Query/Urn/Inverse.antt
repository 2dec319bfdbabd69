-- ===== src/Query/Urn/Inverse.antt =====
-- `parseEntityUrn` and `encodeEntityUrn` are inverse to each other.
use text.Mathlib.TextLemmas.{append_assoc}
use smpp_telemetry_platform.Base.{
  ◌≡◌, refl, sym, ap, ◌∙◌, String, true, false, some, [], ◌∷◌, eq_iff, &&-eq_true, arith,
}
use smpp_telemetry_platform.Base.Text.{codes}
use smpp_telemetry_platform.Base.Result.{
  ok, ◌>>=◌, require, some_or, some_or-eq-ok, Ensures, after, checked, Ensures-ok, Ensures-err,
}
use smpp_telemetry_platform.Json.{Value, undefined, null, bool, num, str, arr, obj}
use smpp_telemetry_platform.Query.Urn.{
  UriCodec, EntityUrn, encode_entity_urn, parse_entity_urn, parse_parts, is_name, urn_invalid, ◌⋯◌,
  name_of_codes, all_name_codes, is_name_code,
}
use smpp_telemetry_platform.Query.Urn.Split.{split, split-part, split-append, has_colon}

-- What the encoding of a component promises: no colon, and that it can be read back.
pub record DecodesBack (uri : UriCodec) : Type 0 where
  pub plain :
      (text encoded : String) → uri.encode_component text ≡ some encoded → has_colon encoded ≡ false
  pub back :
      (text encoded : String)
      → uri.encode_component text ≡ some encoded
      → uri.decode_component encoded ≡ some text

all_name_codes-plain : (s : String) → all_name_codes (codes s) ≡ true → has_colon s ≡ false
unfolding all_name_codes has_colon is_name_code
all_name_codes-plain String.[] h = refl
all_name_codes-plain (String.◌∷◌ c s) h = ground (arith, all_name_codes-plain s)

is_name-plain : (s : String) → is_name s ≡ true → has_colon s ≡ false
unfolding is_name name_of_codes has_colon
is_name-plain String.[] h = refl
is_name-plain (String.◌∷◌ c s) h = ground (arith, all_name_codes-plain s)

-- the parts of the URN of an entity, its components encoded
record IsWritten (uri : UriCodec) (entity : EntityUrn) (text : String) : Type 0 where
  pub tenant : String
  pub deployment : String
  pub id : String
  pub tenant_encoded : uri.encode_component entity.tenant_id ≡ some tenant
  pub deployment_encoded : uri.encode_component entity.deployment_id ≡ some deployment
  pub id_encoded : uri.encode_component entity.entity_id ≡ some id
  pub named_source : is_name entity.source_system ≡ true
  pub named_type : is_name entity.entity_type ≡ true
  pub joined :
      "urn:telemetry:" ⋯ tenant ⋯ ":" ⋯ entity.source_system ⋯ ":" ⋯ deployment ⋯ ":"
        ⋯ entity.entity_type ⋯ ":" ⋯ id
      ≡ text

split-prefix : (t : String) → split ("urn:telemetry:" ⋯ t) ≡ "urn" ∷ "telemetry" ∷ split t
unfolding has_colon
split-prefix t =
    ap split (append_assoc "urn:" "telemetry:" t ∙ append_assoc "urn" ":" ("telemetry:" ⋯ t))
    ∙ split-append "urn" ("telemetry:" ⋯ t) refl
    ∙ ap (λ u. "urn" ∷ split u) (append_assoc "telemetry" ":" t)
    ∙ ap (λ parts. "urn" ∷ parts) (split-append "telemetry" t refl)

module _ (uri : UriCodec) where
  encode_entity_urn-IsWritten :
      (entity : EntityUrn) → Ensures (IsWritten uri entity) (encode_entity_urn uri entity)
  unfolding encode_entity_urn
  encode_entity_urn-IsWritten entity = checked urn_invalid λ _. checked urn_invalid λ _.
      checked urn_invalid λ _. checked urn_invalid λ _. checked urn_invalid λ _.
        checked urn_invalid λ named. after λ tenant h. after λ deployment k. after λ id l.
          Ensures-ok (record {
            tenant = tenant;
            deployment = deployment;
            id = id;
            tenant_encoded = some_or-eq-ok urn_invalid _ h;
            deployment_encoded = some_or-eq-ok urn_invalid _ k;
            id_encoded = some_or-eq-ok urn_invalid _ l;
            named_source = (&&-eq_true _ _ named).0;
            named_type = (&&-eq_true _ _ named).1;
            joined = refl;
          })

  parts_of_text :
      DecodesBack uri
      → (entity : EntityUrn) (text : String) (w : IsWritten uri entity text)
      → split text
        ≡ "urn" ∷ "telemetry" ∷ w.tenant ∷ entity.source_system ∷ w.deployment ∷ entity.entity_type
          ∷ w.id ∷ []
  parts_of_text decodes entity text w =
      let source = is_name-plain entity.source_system w.named_source in
      let type = is_name-plain entity.entity_type w.named_type in
      ap split (sym w.joined)
      ∙ split-prefix (
          w.tenant ⋯ ":" ⋯ entity.source_system ⋯ ":" ⋯ w.deployment ⋯ ":" ⋯ entity.entity_type
          ⋯ ":" ⋯ w.id)
      ∙ simp (
        split-append w.tenant _ (decodes.plain _ _ w.tenant_encoded),
        split-append entity.source_system _ source,
        split-append w.deployment _ (decodes.plain _ _ w.deployment_encoded),
        split-append entity.entity_type _ type,
        split-part w.id (decodes.plain _ _ w.id_encoded),
      )

  parse_entity_urn-canonical :
      (value : Value) (entity : EntityUrn)
      → parse_entity_urn uri value ≡ ok entity
      → (text : String) × (value ≡ str text) × (encode_entity_urn uri entity ≡ ok text)
  unfolding parse_entity_urn
  parse_entity_urn-canonical value entity = (canonical value).returns entity
    where
      canonical :
          (value : Value)
          → Ensures
              (λ entity.
                (text : String) × (value ≡ str text) × (encode_entity_urn uri entity ≡ ok text))
              (parse_entity_urn uri value)
      canonical (str text) = after λ entity _. after λ encoded same.
          checked urn_invalid
            λ equal. Ensures-ok (text, refl, same ∙ ap ok ((eq_iff encoded text).0 equal))
      canonical undefined = Ensures-err
      canonical null = Ensures-err
      canonical (bool b) = Ensures-err
      canonical (num n) = Ensures-err
      canonical (arr items) = Ensures-err
      canonical (obj fields) = Ensures-err

  -- The URN of an entity is read back as that entity.
  pub parse-encode_entity_urn :
      DecodesBack uri
      → (entity : EntityUrn) (text : String) → encode_entity_urn uri entity ≡ ok text
      → parse_entity_urn uri (str text) ≡ ok entity
  unfolding parse_entity_urn parse_parts ◌>>=◌ require some_or
  parse-encode_entity_urn decodes entity text encoded =
      let w = (encode_entity_urn-IsWritten entity).returns text encoded in
      let parts = parts_of_text decodes entity text w in
      simp (
        parts,
        decodes.back _ _ w.tenant_encoded,
        decodes.back _ _ w.deployment_encoded,
        decodes.back _ _ w.id_encoded,
        encoded,
        (eq_iff text text).1 refl,
      )

  -- No two URNs that are read are of one entity: equal entities have been read from equal texts.
  pub parse_entity_urn_unique :
      (one other : Value) (entity : EntityUrn)
      → parse_entity_urn uri one ≡ ok entity
      → parse_entity_urn uri other ≡ ok entity
      → one ≡ other
  parse_entity_urn_unique one other entity h k =
      let (text, is_text, encoded) = parse_entity_urn-canonical one entity h in
      let (text', is_text', encoded') = parse_entity_urn-canonical other entity k in
      let same : text ≡ text' = ok-injective (sym encoded ∙ encoded') in
      is_text ∙ ap str same ∙ sym is_text'
    where
      ok-injective : {a b : String} → ok a ≡ ok b → a ≡ b
      ok-injective h = cc

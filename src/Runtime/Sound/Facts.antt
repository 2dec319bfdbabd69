-- ===== src/Runtime/Sound/Facts.antt =====
-- What the helpers of smpp-runtime-semantics.ts guarantee when they return.
use smpp_telemetry_platform.Base.{
  ap, ℕ, ◌≤◌, ◌≡◌, refl, subst, inl, inr, List, String, Bool, true, false, Option, none, some,
  arith, eq_iff, str_eq,
}
use smpp_telemetry_platform.Base.Result.{
  Result, err, ◌>>=◌, ok, require, Ensures, Ensures-ok, Ensures-err, on_test, holding, after,
}
use smpp_telemetry_platform.Json.{
  Value, Items, Fields, undefined, null, arr, nil, cons, bool, num, str, get, strict_eq, pos,
}
use smpp_telemetry_platform.Timestamp.{is_some}
use smpp_telemetry_platform.Runtime.Checks.{
  string, optional_string, safe_at_least, common_task_identity, agreed_execution,
  external_execution_identity, utc, enum_value, boolean, string_items, string_array,
}
use smpp_telemetry_platform.Runtime.Recovery.{causal_refs}
use smpp_telemetry_platform.Runtime.Observation.{same_optional}
use smpp_telemetry_platform.Runtime.Semantic.{is_text}
use smpp_telemetry_platform.Runtime.Sound.{Given, Agreed, Listed, texts}

pub string-eq-ok : (v : Value) (code : String) {s : String} → string v code ≡ ok s → v ≡ str s
unfolding string
string-eq-ok (str t) code h = ground arith
string-eq-ok _ code h = cc

pub is_text-eq : (v : Value) (t : String) → is_text v t ≡ true → v ≡ str t
unfolding strict_eq
is_text-eq (str s) t h = ap str ((eq_iff s t).0 h)
is_text-eq (bool true) t h = cc
is_text-eq (bool false) t h = cc
is_text-eq _ t h = cc

-- A value is not two texts at once.
pub is_text_ne :
    (v : Value) (s t : String) → is_text v s ≡ true → str_eq s t ≡ false → is_text v t ≡ false
unfolding strict_eq
is_text_ne v s t h n = rw (is_text-eq v s h) n

pub common_task_identity-eq-ok :
    (envelope payload : Fields) {t : String}
    → common_task_identity envelope payload ≡ ok t
    → get envelope "taskId" ≡ str t
unfolding common_task_identity ◌>>=◌
common_task_identity-eq-ok envelope payload h =
    ground (arith, string-eq-ok (get envelope "taskId") "SMPP_RUNTIME_TASK_ID_REQUIRED")

agreed_execution-is_some :
    (top nested : Result (Option String)) (required : Bool) {e : Option String}
    → (top >>= λ t. nested >>= λ n. agreed_execution t n required) ≡ ok e
    → required ≡ true
    → is_some e ≡ true
unfolding agreed_execution ◌>>=◌
agreed_execution-is_some (ok none) (ok none) required h r = ground arith
agreed_execution-is_some (ok none) (ok (some n)) required h r = ground arith
agreed_execution-is_some (ok (some t)) (ok none) required h r = ground arith
agreed_execution-is_some (ok (some t)) (ok (some n)) required h r = ground arith
agreed_execution-is_some (ok t) (err c) required h r = cc
agreed_execution-is_some (err c) nested required h r = cc

pub execution-is_some :
    (envelope payload : Fields) (required : Bool) {e : Option String}
    → external_execution_identity envelope payload required ≡ ok e
    → required ≡ true
    → is_some e ≡ true
unfolding external_execution_identity
execution-is_some envelope payload required h r =
    agreed_execution-is_some
      (optional_string (get envelope "externalExecutionId") "SMPP_RUNTIME_EXECUTION_ID_INVALID")
      (optional_string (get payload "externalExecutionId") "SMPP_RUNTIME_EXECUTION_ID_INVALID")
      required h r

pub safe_at_least-le :
    (least : ℕ) (v : Value) (code : String) {n : ℕ} → safe_at_least least v code ≡ ok n → least ≤ n
unfolding safe_at_least
safe_at_least-le least (num (pos k)) code h = ground arith
safe_at_least-le least (num n) code h = cc
safe_at_least-le least _ code h = cc

pub utc-eq-ok :
    (date_parse : String → Option ℕ) (v : Value) (code : String) {s : String}
    → utc date_parse v code ≡ ok s
    → v ≡ str s
unfolding utc ◌>>=◌ require
utc-eq-ok date_parse v code h = ground (arith, string-eq-ok v code)

pub enum_value-eq-ok :
    (v : Value) (allowed : List String) (code : String) {s : String}
    → enum_value v allowed code ≡ ok s
    → v ≡ str s
unfolding enum_value ◌>>=◌ require
enum_value-eq-ok v allowed code h = ground (arith, string-eq-ok v code)

pub boolean-eq-ok : (v : Value) (code : String) {b : Bool} → boolean v code ≡ ok b → v ≡ bool b
unfolding boolean
boolean-eq-ok (bool c) code h = ground arith
boolean-eq-ok _ code h = cc

pub safe_at_least-eq-ok :
    (least : ℕ) (v : Value) (code : String) {n : ℕ}
    → safe_at_least least v code ≡ ok n
    → v ≡ num (pos n)
unfolding safe_at_least
safe_at_least-eq-ok least (num (pos k)) code h = ground arith
safe_at_least-eq-ok least (num n) code h = cc
safe_at_least-eq-ok least _ code h = cc

text-Given : (v : Value) (code : String) → Ensures (Given v) (string v code >>= λ s. ok (some s))
unfolding Given
text-Given v code = after λ s e. Ensures-ok (string-eq-ok v code e)

pub optional_string-Given : (v : Value) (code : String) → Ensures (Given v) (optional_string v code)
unfolding optional_string Given
optional_string-Given null code = Ensures-ok refl
optional_string-Given undefined code = Ensures-ok refl
optional_string-Given v code = text-Given v code

string_items-texts :
    (vs : Items) (code : String) → Ensures (λ ts. vs ≡ texts ts) (string_items vs code)
unfolding string_items texts
string_items-texts nil code = Ensures-ok refl
string_items-texts (cons (str t) vs) code =
    on_test (str_eq t "") (λ _. Ensures-err)
      λ _. holding (string_items-texts vs code) λ ts e. Ensures-ok (ap (cons (str t)) e)
string_items-texts (cons _ vs) code = Ensures-err

pub string_array-texts :
    (v : Value) (code : String) {ts : List String}
    → string_array v code ≡ ok ts
    → v ≡ arr (texts ts)
unfolding string_array
string_array-texts (arr vs) code h = ap arr ((string_items-texts vs code).returns _ h)
string_array-texts _ code h = cc

agreed_execution-Agreed :
    (top nested : Value) (t n : Option String) (required : Bool)
    → Given top t
    → Given nested n
    → Ensures (Agreed top nested) (agreed_execution t n required)
unfolding agreed_execution Agreed
agreed_execution-Agreed top nested (some t) (some n) required h k =
    on_test (str_eq n t)
      (λ same.
        Ensures-ok (inl (h, inr (subst (λ s. Given nested (some s)) ((eq_iff n t).0 same) k))))
      (λ _. Ensures-err)
agreed_execution-Agreed top nested (some t) none required h k = Ensures-ok (inl (h, inl k))
agreed_execution-Agreed top nested none (some n) required h k = Ensures-ok (inr (h, k))
agreed_execution-Agreed top nested none none required h k =
    on_test required (λ _. Ensures-err) (λ _. Ensures-ok (h, k))

pub execution-Agreed :
    (envelope payload : Fields) (required : Bool)
    → Ensures
        (Agreed (get envelope "externalExecutionId") (get payload "externalExecutionId"))
        (external_execution_identity envelope payload required)
unfolding external_execution_identity
execution-Agreed envelope payload required =
    holding (optional_string-Given _ _)
      λ t h. holding (optional_string-Given _ _) λ n k. agreed_execution-Agreed _ _ t n required h k

pub same_optional-eq : (a b : Option String) → same_optional a b ≡ true → a ≡ b
unfolding same_optional
same_optional-eq none none h = refl
same_optional-eq (some a) (some b) h = ap some ((eq_iff a b).0 h)
same_optional-eq none (some b) h = cc
same_optional-eq (some a) none h = cc

pub strict_eq-false : (v : Value) → strict_eq v (bool false) ≡ true → v ≡ bool false
unfolding strict_eq
strict_eq-false (bool false) h = refl
strict_eq-false (bool true) h = cc
strict_eq-false _ h = cc

pub causal_refs-Listed : (v : Value) → Ensures (Listed v) (causal_refs v)
unfolding causal_refs Listed
causal_refs-Listed undefined = Ensures-ok (inl (refl, refl))
causal_refs-Listed v = record { returns = λ ts h. inr (string_array-texts v _ h) }

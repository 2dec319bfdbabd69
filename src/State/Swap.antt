-- ===== src/State/Swap.antt =====
-- A check and a put in one transaction are a compare-and-set.
use smpp_telemetry_platform.Base.{
  ◌≡◌, refl, ap, ◌∙◌, true, false, ◌&&◌, String, List, [], ◌∷◌, Option, none, some, str_eq, eq_iff,
  arith, if◌then◌else◌, Bool-cases, inl, inr, ◌↔◌, ◌≢◌,
}
use smpp_telemetry_platform.Base.Result.{Result, ok, err, ◌>>=◌, some_or}
use smpp_telemetry_platform.Json.{Value, null, coalesce}
use smpp_telemetry_platform.State.{Platform, Entry, State, put, check}
use smpp_telemetry_platform.State.Table.{
  at_key, text_at, upsert, with_table, lookup, write, put_value, apply, operation, transaction,
  same_text, namespace_of,
}

text_at-upsert :
    (ns k text : String) (es : List Entry) → text_at ns k (upsert ns k text es) ≡ some text
unfolding text_at upsert at_key
text_at-upsert ns k text [] = ground (arith, eq_iff ns ns, eq_iff k k)
text_at-upsert ns k text (e ∷ es) = ground (arith, text_at-upsert ns k text es)

text_at-upsert_other :
    (ns k text ns' k' : String) (es : List Entry)
    → str_eq ns ns' && str_eq k k' ≡ false
    → text_at ns' k' (upsert ns k text es) ≡ text_at ns' k' es
unfolding text_at upsert at_key
text_at-upsert_other ns k text ns' k' [] h = ground (arith, h)
text_at-upsert_other ns k text ns' k' (e ∷ es) h =
    ground
      (arith, h, text_at-upsert_other ns k text ns' k' es, eq_iff e.namespace ns, eq_iff e.key k)

-- what the compare-and-set of a value that has a text returns
swapped : Platform → String → String → Value → String → State → Result (State × List Value)
swapped p ns k expected text s =
    if same_text (p.stringify (coalesce (lookup p s ns k) null)) (p.stringify expected)
    then ok (write p ns k text s, null ∷ null ∷ [])
    else err "STATE_COMPARE_FAILED"

transaction-swap :
    (p : Platform) (ns k : String) (expected v : Value) (text : String) (s : State)
    → str_eq ns "" ≡ false
    → p.stringify v ≡ some text
    → transaction p (check ns k expected ∷ put ns k v ∷ []) s ≡ swapped p ns k expected text s
unfolding transaction operation apply namespace_of put_value swapped ◌>>=◌ some_or
transaction-swap p ns k expected v text s named stringified =
    elim (Bool-cases
      (same_text (p.stringify (coalesce (lookup p s ns k) null)) (p.stringify expected))) [
        | inl same ↦ rw (named, same, stringified) refl
        | inr differs ↦ rw (named, differs) refl
      ]

-- How a compare-and-set ends: the value is replaced and no other row changes, or the stored value
-- is not the expected one and the transaction throws.
pub data Swapping (p : Platform) (ns k : String) (expected : Value) (text : String) (s : State)
    (r : Result (State × List Value)) : Type 0 where
  replaces :
      (t : State)
      → r ≡ ok (t, null ∷ null ∷ [])
      → p.stringify (coalesce (lookup p s ns k) null) ≡ p.stringify expected
      → text_at ns k t.kv ≡ some text
      → ((ns' k' : String)
          → str_eq ns ns' && str_eq k k' ≡ false
          → text_at ns' k' t.kv ≡ text_at ns' k' s.kv)
      → Swapping p ns k expected text s r
  refuses :
      r ≡ err "STATE_COMPARE_FAILED"
      → p.stringify (coalesce (lookup p s ns k) null) ≢ p.stringify expected
      → Swapping p ns k expected text s r

same_text-eq : (a b : Option String) → (same_text a b ≡ true) ↔ (a ≡ b)
unfolding same_text
same_text-eq none none = (λ h. refl, λ h. refl)
same_text-eq (some a) (some b) =
    (λ h. ap some ((eq_iff a b).0 h), λ h. (eq_iff a b).1 (some-injective h))
  where
    some-injective : {a b : String} → some a ≡ some b → a ≡ b
    some-injective h = cc
same_text-eq none (some b) = (λ h. cc, λ h. cc)
same_text-eq (some a) none = (λ h. cc, λ h. cc)

-- A transaction of a check and a put of the same row is a compare-and-set: where the stored value
-- has the expected text it is replaced and every other row stays, and otherwise it throws.
pub transaction-Swapping :
    (p : Platform) (ns k : String) (expected v : Value) (text : String) (s : State)
    → str_eq ns "" ≡ false
    → p.stringify v ≡ some text
    → Swapping p ns k expected text s (transaction p (check ns k expected ∷ put ns k v ∷ []) s)
unfolding swapped write with_table
transaction-Swapping p ns k expected v text s named stringified =
    let stored = p.stringify (coalesce (lookup p s ns k) null) in
    let result = transaction-swap p ns k expected v text s named stringified in
    elim (Bool-cases (same_text stored (p.stringify expected))) [
      | inl same ↦
          replaces (write p ns k text s) (result ∙ rw same refl)
            ((same_text-eq stored (p.stringify expected)).0 same) (text_at-upsert ns k text s.kv)
            (λ ns' k' apart. text_at-upsert_other ns k text ns' k' s.kv apart)
      | inr differs ↦
          refuses (result ∙ rw differs refl)
            (λ e. let same = (same_text-eq stored (p.stringify expected)).1 e in cc)
    ]

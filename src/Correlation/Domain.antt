-- ===== src/Correlation/Domain.antt =====
-- Which envelopes the scan of the evaluation domain's identities refuses.
use smpp_telemetry_platform.Base.{
  ℕ, zero, suc, ◌<◌, ◌≡◌, true, ◌||◌, String, arith, ◌↔◌, Bool-cases, inl, inr,
}
use smpp_telemetry_platform.Json.{
  Value, Items, Fields, undefined, null, bool, num, str, arr, obj, nil, cons, end, field,
}
use smpp_telemetry_platform.Correlation.{scan, scan_items, scan_fields, is_evaluation_key}

pub data IsItem : Items → Value → Type 0 where
  first : {v : Value} {rest : Items} → IsItem (cons v rest) v
  later : {u v : Value} {rest : Items} → IsItem rest v → IsItem (cons u rest) v

pub data IsField : Fields → String → Value → Type 0 where
  first : {key : String} {v : Value} {rest : Fields} → IsField (field key v rest) key v
  later :
      {k key : String} {u v : Value} {rest : Fields}
      → IsField rest key v
      → IsField (field k u rest) key v

-- A value holds an object with a key, this many arrays and objects down.
pub data HoldsKey : ℕ → Value → String → Type 0 where
  here :
      {fields : Fields} {key : String} {v : Value}
      → IsField fields key v
      → HoldsKey 0 (obj fields) key
  in_item :
      {n : ℕ} {items : Items} {v : Value} {key : String}
      → IsItem items v
      → HoldsKey n v key
      → HoldsKey (suc n) (arr items) key
  in_field :
      {n : ℕ} {fields : Fields} {k key : String} {v : Value}
      → IsField fields k v
      → HoldsKey n v key
      → HoldsKey (suc n) (obj fields) key

scan_items-IsItem :
    (depth : ℕ) {items : Items} {v : Value}
    → IsItem items v
    → scan depth v ≡ true
    → scan_items depth items ≡ true
unfolding scan_items
scan_items-IsItem depth (first {v} {rest}) h = ground (arith, h)
scan_items-IsItem depth (later {rest} item) h = ground (arith, scan_items-IsItem depth item h)

scan_fields-IsField :
    (depth : ℕ) {fields : Fields} {key : String} {v : Value}
    → IsField fields key v
    → (is_evaluation_key key || scan depth v) ≡ true
    → scan_fields depth fields ≡ true
unfolding scan_fields
scan_fields-IsField depth first h = ground (arith, h)
scan_fields-IsField depth (later item) h = ground (arith, scan_fields-IsField depth item h)

-- The scan refuses a value that holds an evaluation key within its depth.
pub scan-HoldsKey :
    (depth n : ℕ) {v : Value} {key : String}
    → HoldsKey n v key
    → n < depth
    → is_evaluation_key key ≡ true
    → scan depth v ≡ true
unfolding scan
scan-HoldsKey zero n holds h k = absurd (omega arith)
scan-HoldsKey (suc depth) n (here item) h k = scan_fields-IsField depth item (ground (arith, k))
scan-HoldsKey (suc depth) n (in_item {n = m} item holds) h k =
    scan_items-IsItem depth item (scan-HoldsKey depth m holds (omega arith) k)
scan-HoldsKey (suc depth) n (in_field {n = m} item holds) h k =
    let deeper = scan-HoldsKey depth m holds (omega arith) k in
    scan_fields-IsField depth item (ground (arith, deeper))

-- what the scan has found
pub record Found (depth : ℕ) (v : Value) : Type 0 where
  pub level : ℕ
  pub key : String
  pub holds : HoldsKey level v key
  pub within : level < depth
  pub forbidden : is_evaluation_key key ≡ true

scan_items-found :
    (depth : ℕ) (items : Items)
    → scan_items depth items ≡ true
    → (v : Value) × IsItem items v × (scan depth v ≡ true)
unfolding scan_items
scan_items-found depth nil h = absurd cc
scan_items-found depth (cons v rest) h = elim (Bool-cases (scan depth v)) [
  | inl found ↦ (v, first, found)
  | inr clear ↦
      let (u, item, found) = scan_items-found depth rest (ground (arith, h, clear)) in
      (u, later item, found)
]

scan_fields-found :
    (depth : ℕ) (fields : Fields)
    → scan_fields depth fields ≡ true
    → (key : String) × (v : Value) × IsField fields key v
      × ((is_evaluation_key key || scan depth v) ≡ true)
unfolding scan_fields
scan_fields-found depth end h = absurd cc
scan_fields-found depth (field key v rest) h =
    elim (Bool-cases (is_evaluation_key key || scan depth v)) [
      | inl found ↦ (key, v, first, found)
      | inr clear ↦
          let (k, u, item, found) = scan_fields-found depth rest (ground (arith, h, clear)) in
          (k, u, later item, found)
    ]

scan-Found : (depth : ℕ) (v : Value) → scan depth v ≡ true → Found depth v
unfolding scan
scan-Found zero v h = absurd cc
scan-Found (suc depth) (arr items) h =
    let (v, item, found) = scan_items-found depth items h in
    let deeper = scan-Found depth v found in
    record {
      level = suc deeper.level;
      key = deeper.key;
      holds = in_item item deeper.holds;
      within = omega (arith, deeper.within);
      forbidden = deeper.forbidden;
    }
scan-Found (suc depth) (obj fields) h =
    let (key, v, item, found) = scan_fields-found depth fields h in
    elim (Bool-cases (is_evaluation_key key)) [
      | inl forbidden ↦ record {
        level = 0;
        key = key;
        holds = here item;
        within = omega arith;
        forbidden = forbidden;
      }
      | inr clear ↦
          let deeper = scan-Found depth v (ground (arith, found, clear)) in
          record {
            level = suc deeper.level;
            key = deeper.key;
            holds = in_field item deeper.holds;
            within = omega (arith, deeper.within);
            forbidden = deeper.forbidden;
          }
    ]
scan-Found (suc depth) undefined h = absurd cc
scan-Found (suc depth) null h = absurd cc
scan-Found (suc depth) (bool b) h = absurd cc
scan-Found (suc depth) (num b) h = absurd cc
scan-Found (suc depth) (str b) h = absurd cc

-- The scan of an envelope refuses it exactly where an object in it, at most twelve arrays and
-- objects down, has an evaluation key.
pub scan-Found_lem : (v : Value) → (scan 13 v ≡ true) ↔ Found 13 v
scan-Found_lem v = (
  λ h. scan-Found 13 v h,
  λ found. scan-HoldsKey 13 found.level found.holds found.within found.forbidden,
)

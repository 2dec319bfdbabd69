-- ===== src/Validation/Bounded.antt =====
-- What the scan of an envelope makes sure of: its size, its depth, and what it does not hold.
use smpp_telemetry_platform.Base.{
  ℕ, suc, ◌+◌, ◌≤◌, ◌≡◌, refl, false, not, ◌&&◌, String, arith, length,
}
use smpp_telemetry_platform.Base.Text.{text_length}
use smpp_telemetry_platform.Base.Result.{Ensures, holding, checked, Ensures-ok, required}
use smpp_telemetry_platform.Json.{
  Value, Items, Fields, undefined, null, bool, num, str, arr, obj, nil, cons, end, field, keys,
}
use smpp_telemetry_platform.Validation.Payload.{
  Limits, is_sensitive_key, is_sensitive_value, fencing_counter, item_count, scan_node, enter,
  admit_key, scan, scan_items, scan_fields,
}

-- the values of a tree
unfoldable mutual
  pub nodes_of : Value → ℕ
  nodes_of (arr items) = suc (nodes_of_items items)
  nodes_of (obj fields) = suc (nodes_of_fields fields)
  nodes_of undefined = 1
  nodes_of null = 1
  nodes_of (bool b) = 1
  nodes_of (num n) = 1
  nodes_of (str s) = 1

  pub nodes_of_items : Items → ℕ
  nodes_of_items nil = 0
  nodes_of_items (cons v items) = nodes_of v + nodes_of_items items

  pub nodes_of_fields : Fields → ℕ
  nodes_of_fields end = 0
  nodes_of_fields (field key v fields) = nodes_of v + nodes_of_fields fields

-- a value's own limits
abbrev pub NodeFits : Limits → Value → Type 0
NodeFits limits (str s) =
    (text_length s ≤ limits.max_string_length) × (is_sensitive_value s ≡ false)
NodeFits limits (arr items) = item_count items ≤ limits.max_array_length
NodeFits limits (obj fields) = length (keys fields) ≤ limits.max_object_properties
NodeFits limits _ = Unit {0}

-- Each value is within the depth and its own limits, and no member has a sensitive key, unless
-- it is the fencing counter.
unfoldable mutual
  pub IsBounded : Limits → ℕ → Value → Type 0
  IsBounded limits depth (arr items) =
      (depth ≤ limits.max_depth) × NodeFits limits (arr items) × AreBounded limits (suc depth) items
  IsBounded limits depth (obj fields) =
      (depth ≤ limits.max_depth)
      × NodeFits limits (obj fields)
      × MembersBounded limits (suc depth) fields
  IsBounded limits depth undefined = depth ≤ limits.max_depth
  IsBounded limits depth null = depth ≤ limits.max_depth
  IsBounded limits depth (bool b) = depth ≤ limits.max_depth
  IsBounded limits depth (num n) = depth ≤ limits.max_depth
  IsBounded limits depth (str s) = (depth ≤ limits.max_depth) × NodeFits limits (str s)

  pub AreBounded : Limits → ℕ → Items → Type 0
  AreBounded limits depth nil = Unit {0}
  AreBounded limits depth (cons v items) = IsBounded limits depth v × AreBounded limits depth items

  pub MembersBounded : Limits → ℕ → Fields → Type 0
  MembersBounded limits depth end = Unit {0}
  MembersBounded limits depth (field key v fields) =
      ((is_sensitive_key key && not (fencing_counter key v)) ≡ false)
      × IsBounded limits depth v
      × MembersBounded limits depth fields

-- what entering a value gives
pub record Entered (limits : Limits) (v : Value) (depth nodes n : ℕ) : Type 0 where
  pub deep : depth ≤ limits.max_depth
  pub within : n ≤ limits.max_nodes
  pub counted : n ≡ suc nodes
  pub fits : NodeFits limits v

scan_node-NodeFits :
    (limits : Limits) (v : Value) → Ensures (λ d. NodeFits limits v) (scan_node limits v)
unfolding scan_node
scan_node-NodeFits limits (str s) =
    checked _ λ short. required _ λ clean. (ground (arith, short), ground (arith, clean))
scan_node-NodeFits limits (arr items) = required _ λ short. ground (arith, short)
scan_node-NodeFits limits (obj fields) = required _ λ narrow. ground (arith, narrow)
scan_node-NodeFits limits undefined = Ensures-ok tt
scan_node-NodeFits limits null = Ensures-ok tt
scan_node-NodeFits limits (bool b) = Ensures-ok tt
scan_node-NodeFits limits (num n) = Ensures-ok tt

enter-Entered :
    (limits : Limits) (v : Value) (depth nodes : ℕ)
    → Ensures (Entered limits v depth nodes) (enter limits v depth nodes)
unfolding enter
enter-Entered limits v depth nodes = checked _ λ shallow. checked _ λ few.
    holding (scan_node-NodeFits limits v) λ d fits. Ensures-ok (record {
      deep = ground (arith, shallow);
      within = ground (arith, few);
      counted = refl;
      fits = fits;
    })

-- the count after a scan of so many values
abbrev Counted : Limits → ℕ → ℕ → ℕ → Type 0
Counted limits nodes size n = (n ≡ nodes + size) × (nodes ≤ limits.max_nodes → n ≤ limits.max_nodes)

admit_key-Ensures :
    (key : String) (v : Value)
    → Ensures (λ d. (is_sensitive_key key && not (fencing_counter key v)) ≡ false) (admit_key key v)
unfolding admit_key
admit_key-Ensures key v = required _ λ clean. ground (arith, clean)

-- a value that has no members
entered_leaf :
    (limits : Limits) (v : Value) (depth nodes : ℕ)
    → nodes_of v ≡ 1
    → (NodeFits limits v → depth ≤ limits.max_depth → IsBounded limits depth v)
    → Ensures
        (λ n. IsBounded limits depth v × Counted limits nodes (nodes_of v) n)
        (enter limits v depth nodes)
entered_leaf limits v depth nodes single bounded = record {
  returns = λ n e.
      let entered = (enter-Entered limits v depth nodes).returns n e in
      (
        bounded entered.fits entered.deep,
        (omega (arith, entered.counted, single), λ h. entered.within),
      );
}

mutual
  unfolding scan IsBounded nodes_of

  scan-Counted :
      (limits : Limits) (v : Value) (depth nodes : ℕ)
      → Ensures
          (λ n. IsBounded limits depth v × Counted limits nodes (nodes_of v) n)
          (scan limits v depth nodes)
  scan-Counted limits (arr items) depth nodes =
      holding (enter-Entered limits (arr items) depth nodes) λ n entered. record {
        returns = λ m e.
            let (bounded, (counted, within)) =
              (scan_items-Counted limits items (suc depth) n).returns m e in
            (
              (entered.deep, entered.fits, bounded),
              (omega (arith, counted, entered.counted), λ h. within entered.within),
            );
      }
  scan-Counted limits (obj fields) depth nodes =
      holding (enter-Entered limits (obj fields) depth nodes) λ n entered. record {
        returns = λ m e.
            let (bounded, (counted, within)) =
              (scan_fields-Counted limits fields (suc depth) n).returns m e in
            (
              (entered.deep, entered.fits, bounded),
              (omega (arith, counted, entered.counted), λ h. within entered.within),
            );
      }
  scan-Counted limits undefined depth nodes =
      entered_leaf limits undefined depth nodes refl (λ fits deep. deep)
  scan-Counted limits null depth nodes =
      entered_leaf limits null depth nodes refl (λ fits deep. deep)
  scan-Counted limits (bool b) depth nodes =
      entered_leaf limits (bool b) depth nodes refl (λ fits deep. deep)
  scan-Counted limits (num x) depth nodes =
      entered_leaf limits (num x) depth nodes refl (λ fits deep. deep)
  scan-Counted limits (str s) depth nodes =
      entered_leaf limits (str s) depth nodes refl (λ fits deep. (deep, fits))

  scan_items-Counted :
      (limits : Limits) (items : Items) (depth nodes : ℕ)
      → Ensures
          (λ n. AreBounded limits depth items × Counted limits nodes (nodes_of_items items) n)
          (scan_items limits items depth nodes)
  scan_items-Counted limits nil depth nodes = Ensures-ok (tt, (omega arith, λ h. h))
  scan_items-Counted limits (cons v items) depth nodes =
      holding (scan-Counted limits v depth nodes) λ n head. record {
        returns = λ m e.
            let (bounded, (counted, within)) =
              (scan_items-Counted limits items depth n).returns m e in
            ((head.0, bounded), (omega (arith, counted, head.1.0), λ h. within (head.1.1 h)));
      }

  scan_fields-Counted :
      (limits : Limits) (fields : Fields) (depth nodes : ℕ)
      → Ensures
          (λ n.
            MembersBounded limits depth fields × Counted limits nodes (nodes_of_fields fields) n)
          (scan_fields limits fields depth nodes)
  scan_fields-Counted limits end depth nodes = Ensures-ok (tt, (omega arith, λ h. h))
  scan_fields-Counted limits (field key v fields) depth nodes =
      holding (admit_key-Ensures key v) λ d clean.
        holding (scan-Counted limits v depth nodes) λ n head. record {
          returns = λ m e.
              let (bounded, (counted, within)) =
                (scan_fields-Counted limits fields depth n).returns m e in
              (
                (clean, head.0, bounded),
                (omega (arith, counted, head.1.0), λ h. within (head.1.1 h)),
              );
        }

-- A value that the scan lets through is within the depth at each of its places, each text, array and
-- object in it within its own limit and free of forbidden values and keys; the scan has counted
-- its values, and they are at most the most.
pub scan-IsBounded :
    (limits : Limits) (v : Value)
    → Ensures
        (λ n. IsBounded limits 0 v × (n ≡ nodes_of v) × (nodes_of v ≤ limits.max_nodes))
        (scan limits v 0 0)
scan-IsBounded limits v = record {
  returns = λ n e.
      let (bounded, (counted, within)) = (scan-Counted limits v 0 0).returns n e in
      (bounded, omega (arith, counted), omega (arith, counted, within (omega arith)));
}

-- ===== src/Correlation/Origin.antt =====
-- The origins that an accepted envelope may claim.
use smpp_telemetry_platform.Base.{
  not-eq_true, ◌≤◌, ◌≡◌, refl, false, ◌||◌, ◌&&◌, not, String, List, arith, Option, none, some,
  length, ltb, ltb→ge, OnSome, ◌==◌,
}
use smpp_telemetry_platform.Base.Text.{unique, text_length}
use smpp_telemetry_platform.Base.Result.{
  ◌>>=◌, Ensures, after, holding, checked, on_test, Ensures-ok, Ensures-err,
}
use smpp_telemetry_platform.Correlation.Lists.{
  Fits, AllFit, IsSorted, sort-AllFit, unique-AllFit, length-sort, length-unique, sort-IsSorted,
}
use smpp_telemetry_platform.Json.{
  Value, Items, Fields, undefined, null, bool, num, str, arr, obj, nil, cons, get,
}
use smpp_telemetry_platform.Correlation.{
  Correlation, optional_string, present, item_count, origin_ids, origin_array, has_any, is_named,
  is_sdar, with_claims, normalize_with, normalize_provider_correlation,
}

-- the ids of one kind: at most 64, in the order of `sort`
pub record AreOrigins (ids : List String) : Type 0 where
  pub bounded : length ids ≤ 64
  pub fit : AllFit ids
  pub sorted : IsSorted ids

-- What an accepted correlation claims: with any origin id it names the system, and where
-- the system is sdar its deployment too.
pub record IsOrigin (c : Correlation) : Type 0 where
  pub instances : AreOrigins c.origin_runtime_instance_ids
  pub tasks : AreOrigins c.origin_task_ids
  pub invocations : AreOrigins c.origin_invocation_ids
  pub system :
      (has_any c.origin_runtime_instance_ids c.origin_task_ids c.origin_invocation_ids
        && not (is_named c.origin_system))
      ≡ false
  pub deployment :
      (has_any c.origin_runtime_instance_ids c.origin_task_ids c.origin_invocation_ids
        && is_sdar c.origin_system
        && not (is_named c.origin_deployment_id))
      ≡ false

optional_string-Fits :
    (v : Value) (code : String) → Ensures (OnSome Fits) (optional_string v code 256)
unfolding optional_string
optional_string-Fits undefined code = Ensures-ok tt
optional_string-Fits null code = Ensures-ok tt
optional_string-Fits (str s) code =
    on_test (text_length s == 0 || ltb 256 (text_length s)) (λ bad. Ensures-err)
      (λ good. Ensures-ok (ground (arith, good)))
optional_string-Fits (bool b) code = Ensures-err
optional_string-Fits (num b) code = Ensures-err
optional_string-Fits (arr b) code = Ensures-err
optional_string-Fits (obj b) code = Ensures-err

present-Fits : (o : Option String) → OnSome Fits o → Ensures Fits (present o)
unfolding present
present-Fits none h = Ensures-err
present-Fits (some id) h = Ensures-ok h

item-Fits :
    (v : Value) → Ensures Fits (optional_string v "SMPP_ORIGIN_METADATA_INVALID" 256 >>= present)
item-Fits v =
    holding (optional_string-Fits v "SMPP_ORIGIN_METADATA_INVALID") λ o h. present-Fits o h

origin_ids-AllFit : (items : Items) → Ensures AllFit (origin_ids items)
unfolding origin_ids AllFit
origin_ids-AllFit nil = Ensures-ok tt
origin_ids-AllFit (cons v items) =
    holding (item-Fits v)
      λ id fits. holding (origin_ids-AllFit items) λ ids rest. Ensures-ok (fits, rest)

length-origin_ids :
    (items : Items) → Ensures (λ ids. length ids ≡ item_count items) (origin_ids items)
unfolding origin_ids item_count
length-origin_ids nil = Ensures-ok refl
length-origin_ids (cons v items) =
    after λ id e. holding (length-origin_ids items) λ ids rest. Ensures-ok (omega arith)

origin_array-AreOrigins : (v : Value) → Ensures AreOrigins (origin_array v)
unfolding origin_array AllFit IsSorted
origin_array-AreOrigins undefined =
    Ensures-ok (record { bounded = omega arith; fit = tt; sorted = tt })
origin_array-AreOrigins null = Ensures-ok (record { bounded = omega arith; fit = tt; sorted = tt })
origin_array-AreOrigins (arr items) =
    on_test (ltb 64 (item_count items)) (λ many. Ensures-err)
      λ few. after λ ids read.
        let counted = (length-origin_ids items).returns ids read in
        Ensures-ok (record {
          bounded = omega (
            arith,
            length-sort (unique ids),
            length-unique ids,
            ltb→ge 64 (item_count items) few,
            counted,
          );
          fit =
              sort-AllFit (unique ids)
                (unique-AllFit ids ((origin_ids-AllFit items).returns ids read));
          sorted = sort-IsSorted (unique ids);
        })
origin_array-AreOrigins (bool b) = Ensures-err
origin_array-AreOrigins (num b) = Ensures-err
origin_array-AreOrigins (str b) = Ensures-err
origin_array-AreOrigins (obj b) = Ensures-err

with_claims-IsOrigin :
    (envelope correlation attributes : Fields) (attempt_no : Value)
    (system deployment : Option String) (instances tasks invocations : List String)
    → AreOrigins instances
    → AreOrigins tasks
    → AreOrigins invocations
    → (has_any instances tasks invocations && not (is_named system)) ≡ false
    → (has_any instances tasks invocations && is_sdar system && not (is_named deployment)) ≡ false
    → Ensures IsOrigin (
        with_claims envelope correlation attributes attempt_no system deployment instances tasks
          invocations)
unfolding with_claims
with_claims-IsOrigin envelope correlation attributes attempt_no system deployment instances tasks
      invocations i t v named deployed =
    after λ a e. after λ b e. after λ c e. after λ d e. after λ f e.
      Ensures-ok (record {
        instances = i;
        tasks = t;
        invocations = v;
        system = named;
        deployment = deployed;
      })

normalize_with-IsOrigin :
    (envelope attributes correlation : Fields)
    → Ensures IsOrigin (normalize_with envelope attributes correlation)
unfolding normalize_with
normalize_with-IsOrigin envelope attributes correlation = checked _ λ single.
    holding (origin_array-AreOrigins (get correlation "originRuntimeInstanceIds")) λ is i.
      holding (origin_array-AreOrigins (get correlation "originTaskIds")) λ ts t.
        holding (origin_array-AreOrigins (get correlation "originInvocationIds")) λ vs v.
          after λ system e. after λ deployment e. checked _ λ named. checked _ λ deployed.
            after λ n e.
              with_claims-IsOrigin envelope correlation attributes n system deployment is ts vs i t
                v (not-eq_true _ named) (not-eq_true _ deployed)

-- What a normalised correlation claims as its origins: at most 64 ids of each kind, each of 1 to
-- 256 UTF-16 units, in the order of `sort`; with any id the system is named, and for sdar
-- the deployment too.
pub normalize_provider_correlation-IsOrigin :
    (envelope : Fields) → Ensures IsOrigin (normalize_provider_correlation envelope)
unfolding normalize_provider_correlation
normalize_provider_correlation-IsOrigin envelope =
    checked _ λ a. checked _ λ b. checked _ λ c. checked _ λ d. normalize_with-IsOrigin envelope _ _

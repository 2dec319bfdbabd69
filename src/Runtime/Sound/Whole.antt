-- ===== src/Runtime/Sound/Whole.antt =====
-- The invariant holds of whatever `inspectSmppRuntimeSemantic` returns.
use smpp_telemetry_platform.Base.{ℕ, ◌≡◌, refl, String, Bool, true, false, Option, arith, eq_iff}
use smpp_telemetry_platform.Base.Result.{Result, ok, ◌>>=◌, Ensures, after, holding, Ensures-ok}
use smpp_telemetry_platform.Json.{Fields, get, obj, end, coalesce}
use smpp_telemetry_platform.Runtime.Checks.{object}
use smpp_telemetry_platform.Runtime.Semantic.{
  Semantic, is_uncertainty, is_reconciliation, is_business_terminal, is_evidence,
  is_mission_relation,
}
use smpp_telemetry_platform.Runtime.Recovery.{inspect_uncertainty, inspect_reconciliation}
use smpp_telemetry_platform.Runtime.Observation.{inspect_evidence, inspect_mission_relation}
use smpp_telemetry_platform.Runtime.Closure.{
  inspect_business_terminal, closes_identity, close_identity,
}
use smpp_telemetry_platform.Runtime.Inspect.{block, initial, finish, inspect_parts, inspect}
use smpp_telemetry_platform.Runtime.Sound.{IsSound}
use smpp_telemetry_platform.Runtime.Sound.Claimed.{IsClaimed, inspect_parts-IsClaimed}
use smpp_telemetry_platform.Runtime.Sound.Steps.{
  Unbound, uncertainty-Sound, reconciliation-Sound, business_terminal-Sound, evidence-Sound,
  mission_relation-Sound, close_identity-Sound,
}

-- A block that does not run leaves the result as it is.
block-Ensures {κ} :
    {P : Semantic → Type κ} (test : Bool) (f : Semantic → Result Semantic) (s : Semantic)
    → P s
    → (test ≡ true → Ensures P (f s))
    → Ensures P (block test f s)
block-Ensures true f s p k = k refl
block-Ensures false f s p k = Ensures-ok p

module _ (date_parse : String → Option ℕ) (envelope : Fields) where
  initial-Sound :
      (attributes payload : Fields) → IsSound envelope attributes payload (initial envelope)
  unfolding initial
  initial-Sound attributes payload = ground (arith, eq_iff "not_required" "ready")

  initial-Unbound : Unbound (initial envelope)
  unfolding initial
  initial-Unbound = (refl, refl)

  finish-Sound :
      (attributes payload : Fields) (s : Semantic)
      → IsSound envelope attributes payload s
      → IsSound envelope attributes payload (finish s)
  unfolding finish
  finish-Sound attributes payload s i = record {
    uncertain = i.uncertain;
    reconciled = i.reconciled;
    bound = i.bound;
    ended = i.ended;
    observed = i.observed;
    related = i.related;
    is_ready = i.is_ready;
  }

  inspect_parts-Sound :
      (attributes payload : Fields)
      → Ensures
          (IsSound envelope attributes payload)
          (inspect_parts date_parse envelope attributes payload)
  unfolding inspect_parts
  inspect_parts-Sound a p = after λ _ _.
      holding
        (block-Ensures (is_uncertainty a p) (inspect_uncertainty date_parse envelope a p)
          (initial envelope) (initial-Unbound, initial-Sound a p)
          λ _.
            uncertainty-Sound date_parse envelope a p (initial envelope) initial-Unbound
              (initial-Sound a p))
        λ s1 h1.
          holding
            (block-Ensures (is_reconciliation a p) (inspect_reconciliation date_parse envelope a p)
              s1 h1.1 λ _. reconciliation-Sound date_parse envelope a p s1 h1.0 h1.1)
            λ s2 h2.
              holding
                (block-Ensures (is_business_terminal p) (inspect_business_terminal envelope a p) s2
                  h2 λ _. business_terminal-Sound date_parse envelope a p s2 h2)
                λ s3 h3.
                  holding
                    (block-Ensures (is_evidence a) (inspect_evidence date_parse envelope a p) s3 h3
                      λ _. evidence-Sound date_parse envelope a p s3 h3)
                    λ s4 h4.
                      holding
                        (block-Ensures (is_mission_relation a)
                          (inspect_mission_relation date_parse envelope a p) s4 h4
                          λ _. mission_relation-Sound date_parse envelope a p s4 h4)
                        λ s5 h5.
                          holding
                            (block-Ensures (closes_identity envelope a p s5)
                              (close_identity envelope a p) s5 h5
                              λ t. close_identity-Sound date_parse envelope a p s5 t h5)
                            λ s6 h6. Ensures-ok (finish-Sound a p s6 h6)

pub inspect-Ensures :
    (date_parse : String → Option ℕ) (envelope : Fields)
    → Ensures
        (λ s. (attributes : Fields) × (payload : Fields) × IsSound envelope attributes payload s)
        (inspect date_parse envelope)
unfolding inspect
inspect-Ensures date_parse envelope = after λ a _. after λ p _. record {
  returns = λ s h. (a, p, (inspect_parts-Sound date_parse envelope a p).returns s h);
}

-- Whatever an inspection returns satisfies the invariant, at the attributes and the payload that
-- the record carries: each part has the members of the record that it is read from, a binding is
-- committed or was found, and readiness has a reason. Each part that the record claims is there.
pub inspect-IsSound :
    (date_parse : String → Option ℕ) (envelope attributes payload : Fields) {s : Semantic}
    → coalesce (get envelope "attributes") (obj end) ≡ obj attributes
    → coalesce (get envelope "payload") (obj end) ≡ obj payload
    → inspect date_parse envelope ≡ ok s
    → IsSound envelope attributes payload s × IsClaimed attributes payload s
unfolding inspect object ◌>>=◌
inspect-IsSound date_parse envelope attributes payload {s} ea ep h =
    let inspected = rw (ea, ep) at h in
    (
      (inspect_parts-Sound date_parse envelope attributes payload).returns s inspected,
      (inspect_parts-IsClaimed date_parse envelope attributes payload).returns s inspected,
    )

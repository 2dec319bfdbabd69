-- ===== src/Runtime/Sound/Claimed.antt =====
-- Each part that a record claims is there in the inspected semantics: no block is skipped.
use smpp_telemetry_platform.Base.{ℕ, ◌≡◌, String, Bool, true, false, Option, arith}
use smpp_telemetry_platform.Base.Result.{Result, Ensures, after, checked, holding, Ensures-ok}
use smpp_telemetry_platform.Json.{Fields}
use smpp_telemetry_platform.Timestamp.{is_some}
use smpp_telemetry_platform.Runtime.Semantic.{
  Semantic, is_uncertainty, is_reconciliation, is_business_terminal, is_evidence,
  is_mission_relation,
}
use smpp_telemetry_platform.Runtime.Recovery.{inspect_uncertainty, inspect_reconciliation}
use smpp_telemetry_platform.Runtime.Observation.{inspect_evidence, inspect_mission_relation}
use smpp_telemetry_platform.Runtime.Closure.{
  inspect_business_terminal, closes_identity, close_identity,
}
use smpp_telemetry_platform.Runtime.Inspect.{block, initial, finish, inspect_parts}

-- the second has every part that the first has
pub record Keeps (s t : Semantic) : Type 0 where
  pub uncertainty : is_some s.uncertainty ≡ true → is_some t.uncertainty ≡ true
  pub reconciliation : is_some s.reconciliation ≡ true → is_some t.reconciliation ≡ true
  pub terminal : is_some s.business_terminal ≡ true → is_some t.business_terminal ≡ true
  pub evidence : is_some s.evidence ≡ true → is_some t.evidence ≡ true
  pub mission : is_some s.mission_relation ≡ true → is_some t.mission_relation ≡ true

Keeps-refl : (s : Semantic) → Keeps s s
Keeps-refl s = ground arith

-- a block that adds its part, if the record claims it
block-Adds :
    (has : Semantic → Bool) (test : Bool) (f : Semantic → Result Semantic) (s : Semantic)
    → Ensures (λ t. (has t ≡ true) × Keeps s t) (f s)
    → Ensures (λ t. (test ≡ true → has t ≡ true) × Keeps s t) (block test f s)
block-Adds has true f s adds = record {
  returns = λ t h. let (there, kept) = adds.returns t h in ((λ _. there), kept);
}
block-Adds has false f s adds = Ensures-ok ((λ h. cc), Keeps-refl s)

-- every part that the record claims is there
pub record IsClaimed (attributes payload : Fields) (s : Semantic) : Type 0 where
  pub uncertainty : is_uncertainty attributes payload ≡ true → is_some s.uncertainty ≡ true
  pub reconciliation : is_reconciliation attributes payload ≡ true → is_some s.reconciliation ≡ true
  pub terminal : is_business_terminal payload ≡ true → is_some s.business_terminal ≡ true
  pub evidence : is_evidence attributes ≡ true → is_some s.evidence ≡ true
  pub mission : is_mission_relation attributes ≡ true → is_some s.mission_relation ≡ true

module _ (date_parse : String → Option ℕ) (envelope attributes payload : Fields) where
  uncertainty-Keeps :
      (s : Semantic)
      → Ensures
          (λ t. (is_some t.uncertainty ≡ true) × Keeps s t)
          (inspect_uncertainty date_parse envelope attributes payload s)
  unfolding inspect_uncertainty
  uncertainty-Keeps s = checked _ λ _. after λ _ _. after λ _ _. checked _ λ _.
      checked _ λ _. after λ _ _. after λ _ _. after λ _ _. after λ _ _. Ensures-ok (ground arith)

  reconciliation-Keeps :
      (s : Semantic)
      → Ensures
          (λ t. (is_some t.reconciliation ≡ true) × Keeps s t)
          (inspect_reconciliation date_parse envelope attributes payload s)
  unfolding inspect_reconciliation
  reconciliation-Keeps s = checked _ λ _. after λ _ _. after λ _ _. after λ _ _.
      after λ _ _. after λ _ _. checked _ λ _. after λ _ _. checked _ λ _. Ensures-ok (ground arith)

  terminal-Keeps :
      (s : Semantic)
      → Ensures
          (λ t. (is_some t.business_terminal ≡ true) × Keeps s t)
          (inspect_business_terminal envelope attributes payload s)
  unfolding inspect_business_terminal
  terminal-Keeps s = checked _ λ _. after λ _ _. after λ _ _.
      after λ _ _. after λ _ _. after λ _ _. after λ _ _. checked _ λ _. Ensures-ok (ground arith)

  evidence-Keeps :
      (s : Semantic)
      → Ensures
          (λ t. (is_some t.evidence ≡ true) × Keeps s t)
          (inspect_evidence date_parse envelope attributes payload s)
  unfolding inspect_evidence
  evidence-Keeps s = after λ _ _. after λ _ _. after λ _ _. after λ _ _. after λ _ _.
      after λ _ _. after λ _ _. after λ _ _. after λ _ _. checked _ λ _. Ensures-ok (ground arith)

  mission-Keeps :
      (s : Semantic)
      → Ensures
          (λ t. (is_some t.mission_relation ≡ true) × Keeps s t)
          (inspect_mission_relation date_parse envelope attributes payload s)
  unfolding inspect_mission_relation
  mission-Keeps s = checked _ λ _. after λ _ _. after λ _ _. after λ _ _. after λ _ _. after λ _ _.
      checked _ λ _. after λ _ _. checked _ λ _. checked _ λ _. after λ _ _.
        checked _
          λ _. after λ _ _. checked _ λ _. after λ _ _. checked _ λ _. Ensures-ok (ground arith)

  -- the block of the binding adds none of the parts
  close_identity-Keeps :
      (s : Semantic)
      → Ensures (λ t. (true ≡ true) × Keeps s t) (close_identity envelope attributes payload s)
  unfolding close_identity
  close_identity-Keeps s = after λ _ _. after λ _ _. Ensures-ok (ground arith)

  pub inspect_parts-IsClaimed :
      Ensures (IsClaimed attributes payload) (inspect_parts date_parse envelope attributes payload)
  unfolding inspect_parts finish
  inspect_parts-IsClaimed = after λ _ _.
      holding
        (block-Adds (λ t. is_some t.uncertainty) _
          (inspect_uncertainty date_parse envelope attributes payload) (initial envelope)
          (uncertainty-Keeps (initial envelope)))
        λ s1 (u, _).
          holding
            (block-Adds (λ t. is_some t.reconciliation) _
              (inspect_reconciliation date_parse envelope attributes payload) s1
              (reconciliation-Keeps s1))
            λ s2 (r, k2).
              holding
                (block-Adds (λ t. is_some t.business_terminal) _
                  (inspect_business_terminal envelope attributes payload) s2 (terminal-Keeps s2))
                λ s3 (b, k3).
                  holding
                    (block-Adds (λ t. is_some t.evidence) _
                      (inspect_evidence date_parse envelope attributes payload) s3
                      (evidence-Keeps s3))
                    λ s4 (e, k4).
                      holding
                        (block-Adds (λ t. is_some t.mission_relation) _
                          (inspect_mission_relation date_parse envelope attributes payload) s4
                          (mission-Keeps s4))
                        λ s5 (m, k5).
                          holding
                            (block-Adds (λ t. true) (closes_identity envelope attributes payload s5)
                              (close_identity envelope attributes payload) s5
                              (close_identity-Keeps s5))
                            λ s6 (_, k6). Ensures-ok (record {
                              uncertainty = λ h. k6.uncertainty (
                                  k5.uncertainty
                                    (k4.uncertainty (k3.uncertainty (k2.uncertainty (u h)))));
                              reconciliation = λ h.
                                  k6.reconciliation (
                                    k5.reconciliation
                                      (k4.reconciliation (k3.reconciliation (r h))));
                              terminal = λ h. k6.terminal (k5.terminal (k4.terminal (b h)));
                              evidence = λ h. k6.evidence (k5.evidence (e h));
                              mission = λ h. k6.mission (m h);
                            })

-- ===== src/Runtime/Sound/Bound.antt =====
-- The execution that a binding names.
use smpp_telemetry_platform.Base.{
  ◌≡◌, sym, ap, ◌∙◌, String, true, false, Option, none, some, inl, inr, OnSome, subst,
}
use smpp_telemetry_platform.Json.{Value, Fields, str, get, is_nullish}
use smpp_telemetry_platform.Runtime.Semantic.{Binding, Reconciliation, Semantic, MissionRelation}
use smpp_telemetry_platform.Runtime.Sound.{
  Given, Agreed, ReconciliationHolds, BindingHolds, MissionHolds, IsSound,
}

str-injective : {a b : String} → str a ≡ str b → a ≡ b
str-injective h = cc

Given-str : (v : Value) (t : String) (o : Option String) → v ≡ str t → Given v o → o ≡ some t
unfolding Given
Given-str v t none e h = absurd (not_nullish (sym (ap is_nullish e) ∙ h))
  where
    not_nullish : false ≡ true → ⊥
    not_nullish h = cc
Given-str v t (some u) e h = ap some (str-injective (sym h ∙ e))

Agreed-str :
    (v nested : Value) (t : String) (o : Option String) → v ≡ str t → Agreed v nested o → o ≡ some t
unfolding Agreed
Agreed-str v nested t none e h = Given-str v t none e h.0
Agreed-str v nested t (some u) e (inl h) = Given-str v t (some u) e h.0
Agreed-str v nested t (some u) e (inr h) = absurd (lost (Given-str v t none e h.0))
  where
    lost : none ≡ some t → ⊥
    lost h = cc

module _ (envelope attributes payload : Fields) (execution : String)
    (given : get envelope "externalExecutionId" ≡ str execution) where
  bound-execution :
      (b : Binding) (found : Option Reconciliation)
      → OnSome (ReconciliationHolds envelope attributes payload) found
      → BindingHolds envelope attributes payload found b
      → b.external_execution_id ≡ some execution
  bound-execution b found holds (_, _, _, _, inl (_, committed)) =
      Given-str _ execution b.external_execution_id given committed
  bound-execution b (some r) holds (_, _, _, _, inr (_, (_, _, _, same))) =
      sym same ∙ Agreed-str _ _ execution r.external_execution_id given holds.8
  bound-execution b none holds (_, _, _, _, inr (_, lost)) = absurd lost

  -- A binding names the task and the execution of its record.
  pub IsSound-binding :
      (s : Semantic) (b : Binding)
      → IsSound envelope attributes payload s
      → s.binding ≡ some b
      → (get envelope "taskId" ≡ str b.task_id) × (b.external_execution_id ≡ some execution)
  IsSound-binding s b sound e =
      let holds =
        subst (OnSome (BindingHolds envelope attributes payload s.reconciliation)) e sound.bound in
      (holds.2, bound-execution b s.reconciliation sound.reconciled holds)

  pub IsSound-mission :
      (s : Semantic) (m : MissionRelation)
      → IsSound envelope attributes payload s
      → s.mission_relation ≡ some m
      → m.external_execution_id ≡ execution
  IsSound-mission s m sound e =
      let holds = subst (OnSome (MissionHolds envelope attributes payload)) e sound.related in
      str-injective (sym holds.1 ∙ given)

-- ===== src/Query/Mission/Kept.antt =====
-- The records that the loop of `selectCurrentMissionAuthority` keeps.
use smpp_telemetry_platform.Base.{
  ℕ, ◌≡◌, refl, sym, ap, subst, String, true, false, Option, none, some, List, [], ◌∷◌, str_eq,
  eq_iff, Bool-cases, inl, inr, arith, All,
}
use smpp_telemetry_platform.Base.Result.{Ensures, after, holding, checked, Ensures-ok}
use smpp_telemetry_platform.Query.Urn.{UriCodec}
use smpp_telemetry_platform.Query.Mission.{
  Observation, collect, add, same_observation, same_mission, find_record, put_record, agrees,
}

same_mission-eq : (a b : Option String) → same_mission a b ≡ true → a ≡ b
unfolding same_mission
same_mission-eq none none h = refl
same_mission-eq (some a) (some b) h = ap some ((eq_iff a b).0 h)
same_mission-eq none (some b) h = cc
same_mission-eq (some a) none h = cc

same_observation-eq : (a b : Observation) → same_observation a b ≡ true → a ≡ b
unfolding same_observation
same_observation-eq a b h =
    let task = (eq_iff a.task_id b.task_id).0 (ground (arith, h)) in
    let execution =
      (eq_iff a.external_execution_id b.external_execution_id).0 (ground (arith, h)) in
    let time = (eq_iff a.observed_at b.observed_at).0 (ground (arith, h)) in
    let id = (eq_iff a.record_id b.record_id).0 (ground (arith, h)) in
    let status = (eq_iff a.relation_status b.relation_status).0 (ground (arith, h)) in
    let mission = same_mission-eq a.device_mission_id b.device_mission_id (ground (arith, h)) in
    λ i. record {
      task_id = task i;
      external_execution_id = execution i;
      observed_at = time i;
      record_id = id i;
      relation_status = status i;
      device_mission_id = mission i;
    }

module _ (P : Observation → Type 0) where
  All-put_record :
      (seen : List Observation) (o : Observation) → All P seen → P o → All P (put_record seen o)
  unfolding put_record
  All-put_record [] o all p = (p, tt)
  All-put_record (q ∷ qs) o (h, all) p = elim (Bool-cases (str_eq q.record_id o.record_id)) [
    | inl same ↦ simp same (p, all)
    | inr other ↦ simp other (h, All-put_record qs o all p)
  ]

  put-same :
      (q : Observation) (qs : List Observation) (o : Observation)
      → str_eq q.record_id o.record_id ≡ true
      → All P (put_record (q ∷ qs) o)
      → P o × All P qs
  unfolding put_record
  put-same q qs o same all = simp same at all

  put-other :
      (q : Observation) (qs : List Observation) (o : Observation)
      → str_eq q.record_id o.record_id ≡ false
      → All P (put_record (q ∷ qs) o)
      → P q × All P (put_record qs o)
  unfolding put_record
  put-other q qs o other all = simp other at all

  put_record-All :
      (seen : List Observation) (o : Observation)
      → agrees (find_record seen o.record_id) o ≡ true
      → All P (put_record seen o)
      → All P seen × P o
  unfolding put_record find_record
  put_record-All [] o h (p, all) = (tt, p)
  put_record-All (q ∷ qs) o h all = elim (Bool-cases (str_eq q.record_id o.record_id)) [
    | inl same ↦
        let replayed = same_observation-eq q o (simp same at h) in
        let (p, rest) = put-same q qs o same all in ((subst P (sym replayed) p, rest), p)
    | inr other ↦
        let (p, rest) = put-other q qs o other all in
        let (kept, added) = put_record-All qs o (simp other at h) rest in ((p, kept), added)
  ]

module _ (uri : UriCodec) (date_parse : String → Option ℕ) where
  -- the records that a loop keeps hold what all its observations do, and nothing else
  pub record Kept (seen os records : List Observation) : Type 1 where
    pub nothing_new : (P : Observation → Type 0) → All P seen → All P os → All P records
    pub nothing_lost : (P : Observation → Type 0) → All P records → All P seen × All P os

  add-Kept :
      (task execution : String) (seen : List Observation) (o : Observation)
      → Ensures (Kept seen (o ∷ [])) (add uri date_parse task execution seen o)
  unfolding add
  add-Kept task execution seen o = checked "MISSION_AUTHORITY_SCOPE_MISMATCH" λ _. after λ id _.
      after λ time _. checked "MISSION_AUTHORITY_STATUS_INVALID" λ _.
        checked "MISSION_AUTHORITY_REPLAY_CONFLICT" λ agreed. Ensures-ok (record {
          nothing_new = λ P all (p, _). All-put_record P seen o all p;
          nothing_lost = λ P all.
              let (kept, added) = put_record-All P seen o agreed all in (kept, (added, tt));
        })

  pub collect-Kept :
      (task execution : String) (seen os : List Observation)
      → Ensures (Kept seen os) (collect uri date_parse task execution seen os)
  unfolding collect
  collect-Kept task execution seen [] =
      Ensures-ok (record { nothing_new = λ P all _. all; nothing_lost = λ P all. (all, tt) })
  collect-Kept task execution seen (o ∷ os) =
      holding (add-Kept task execution seen o) λ later first. record {
        returns = λ records h.
            let rest = (collect-Kept task execution later os).returns records h in
            record {
              nothing_new =
                  λ P all (p, others). rest.nothing_new P (first.nothing_new P all (p, tt)) others;
              nothing_lost = λ P all.
                  let (kept, others) = rest.nothing_lost P all in
                  let (before, (p, _)) = first.nothing_lost P kept in (before, (p, others));
            };
      }

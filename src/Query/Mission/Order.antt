-- ===== src/Query/Mission/Order.antt =====
-- Sorting observations puts the latest one last.
use smpp_telemetry_platform.Base.{
  ℕ, ◌≡◌, refl, sym, ◌∙◌, subst, String, true, false, Option, some, List, [], ◌∷◌, Bool-cases, inl,
  inr, arith, All, OnSome,
}
use smpp_telemetry_platform.Base.Order.{text_le_total, text_le_trans}
use smpp_telemetry_platform.Query.Urn.{UriCodec}
use smpp_telemetry_platform.Query.Mission.{Observation, authority_le, insert, sort, last}

module _ (uri : UriCodec) (date_parse : String → Option ℕ) where
  abbrev pub Earlier : Observation → Observation → Type 0
  Earlier o p = authority_le uri date_parse o p ≡ true

  pub authority_le_total :
      (o p : Observation) → authority_le uri date_parse o p ≡ false → Earlier p o
  unfolding authority_le
  authority_le_total o p h = ground (arith, text_le_total o.record_id p.record_id)

  pub authority_le_trans : (o p q : Observation) → Earlier o p → Earlier p q → Earlier o q
  unfolding authority_le
  authority_le_trans o p q h k = ground (arith, text_le_trans o.record_id p.record_id q.record_id)

  pub authority_le_refl : (o : Observation) → Earlier o o
  authority_le_refl o = elim (Bool-cases (authority_le uri date_parse o o)) [
    | inl before ↦ before
    | inr not_before ↦ authority_le_total o o not_before
  ]

  -- every observation is before the last one, or is it
  abbrev Topped : List Observation → Type 0
  Topped os = (l : Observation) → last os ≡ some l → All (λ o. Earlier o l) os

  Topped-rest : (o : Observation) (os : List Observation) → Topped (o ∷ os) → Topped os
  Topped-rest o [] h l k = tt
  Topped-rest o (p ∷ ps) h l k = (h l k).1

  insert-before :
      (o p : Observation) (ps : List Observation)
      → Earlier o p
      → insert uri date_parse o (p ∷ ps) ≡ o ∷ p ∷ ps
  unfolding insert
  insert-before o p ps h = simp h

  insert-later :
      (o p : Observation) (ps : List Observation)
      → authority_le uri date_parse o p ≡ false
      → insert uri date_parse o (p ∷ ps) ≡ p ∷ insert uri date_parse o ps
  unfolding insert
  insert-later o p ps h = simp h

  module _ (P : Observation → Type 0) where
    -- what holds of the observation and of the list holds of the inserted list, and conversely
    All-insert :
        (o : Observation) (os : List Observation)
        → P o
        → All P os
        → All P (insert uri date_parse o os)
    unfolding insert
    All-insert o [] p all = (p, tt)
    All-insert o (q ∷ qs) p (h, all) = elim (Bool-cases (authority_le uri date_parse o q)) [
      | inl before ↦ subst (All P) (sym (insert-before o q qs before)) (p, (h, all))
      | inr later ↦ subst (All P) (sym (insert-later o q qs later)) (h, All-insert o qs p all)
    ]

    insert-All :
        (o : Observation) (os : List Observation)
        → All P (insert uri date_parse o os)
        → P o × All P os
    unfolding insert
    insert-All o [] (p, all) = (p, tt)
    insert-All o (q ∷ qs) all = elim (Bool-cases (authority_le uri date_parse o q)) [
      | inl before ↦ subst (All P) (insert-before o q qs before) all
      | inr later ↦
          let (h, rest) = subst (All P) (insert-later o q qs later) all in
          let (p, others) = insert-All o qs rest in (p, (h, others))
    ]

    pub All-sort : (os : List Observation) → All P os → All P (sort uri date_parse os)
    unfolding sort
    All-sort [] all = tt
    All-sort (o ∷ os) (p, all) = All-insert o (sort uri date_parse os) p (All-sort os all)

    pub sort-All : (os : List Observation) → All P (sort uri date_parse os) → All P os
    unfolding sort
    sort-All [] all = tt
    sort-All (o ∷ os) all =
        let (p, rest) = insert-All o (sort uri date_parse os) all in (p, sort-All os rest)

    pub All-last : (os : List Observation) → All P os → OnSome P (last os)
    All-last [] all = tt
    All-last (o ∷ []) (p, all) = p
    All-last (o ∷ q ∷ qs) (p, all) = All-last (q ∷ qs) all

  last-insert :
      (o q : Observation) (qs : List Observation)
      → last (q ∷ insert uri date_parse o qs) ≡ last (insert uri date_parse o qs)
  unfolding insert
  last-insert o q [] = refl
  last-insert o q (p ∷ ps) = elim (Bool-cases (authority_le uri date_parse o p)) [
    | inl before ↦ simp before
    | inr later ↦ simp later
  ]

  Topped-insert :
      (o : Observation) (os : List Observation) → Topped os → Topped (insert uri date_parse o os)
  unfolding insert
  Topped-insert o [] h = λ l k. (subst (Earlier o) (some-injective k) (authority_le_refl o), tt)
    where
      some-injective : {a b : Observation} → some a ≡ some b → a ≡ b
      some-injective h = cc
  Topped-insert o (q ∷ qs) h = elim (Bool-cases (authority_le uri date_parse o q)) [
    | inl before ↦
        subst Topped (sym (insert-before o q qs before))
          (λ l k. (authority_le_trans o q l before (h l k).0, h l k))
    | inr later ↦ subst Topped (sym (insert-later o q qs later)) (λ l k.
        let all = Topped-insert o qs (Topped-rest q qs h) l (sym (last-insert o q qs) ∙ k) in
        let (newer, _) = insert-All (λ p. Earlier p l) o qs all in
        (authority_le_trans q o l (authority_le_total o q later) newer, all))
  ]

  pub Topped-sort : (os : List Observation) → Topped (sort uri date_parse os)
  unfolding sort
  Topped-sort [] = λ l k. tt
  Topped-sort (o ∷ os) = Topped-insert o (sort uri date_parse os) (Topped-sort os)

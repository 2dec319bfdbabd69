-- ===== src/Normalization/Relations/Unique.antt =====
-- A fact's relations have distinct identifiers.
use mathlib.Core.Bool.{true≢false}
use smpp_telemetry_platform.Base.{
  ◌≡◌, sym, ◌∙◌, subst, false, List, [], ◌∷◌, str_eq, eq_iff, Bool-cases, inl, inr, All,
}
use smpp_telemetry_platform.Normalization.Relations.{EntityRelation, put_relation, by_relation_id}

-- every relation's identifier differs from those after it
abbrev pub Differs : EntityRelation → EntityRelation → Type 0
Differs r p = str_eq p.relation_id r.relation_id ≡ false

unfoldable pub Unique : List EntityRelation → Type 0
Unique [] = Unit
Unique (r ∷ rs) = All (Differs r) rs × Unique rs

module _ (P : EntityRelation → Type 0) where
  pub All-put_relation :
      (ps : List EntityRelation) (r : EntityRelation) → All P ps → P r → All P (put_relation ps r)
  unfolding put_relation
  All-put_relation [] r all p = (p, tt)
  All-put_relation (q ∷ qs) r (h, all) p = elim (Bool-cases (str_eq q.relation_id r.relation_id)) [
    | inl same ↦ simp same (p, all)
    | inr other ↦ simp other (h, All-put_relation qs r all p)
  ]

  pub All-by_relation_id :
      (kept rs : List EntityRelation) → All P kept → All P rs → All P (by_relation_id kept rs)
  unfolding by_relation_id
  All-by_relation_id kept [] all rest = all
  All-by_relation_id kept (r ∷ rs) all (p, rest) =
      All-by_relation_id (put_relation kept r) rs (All-put_relation kept r all p) rest

-- a relation that takes another's identifier differs from the same ones
Differs-same :
    (q r : EntityRelation) (rs : List EntityRelation)
    → q.relation_id ≡ r.relation_id
    → All (Differs q) rs
    → All (Differs r) rs
Differs-same q r [] e all = tt
Differs-same q r (p ∷ ps) e (h, all) =
    (subst (λ id. str_eq p.relation_id id ≡ false) e h, Differs-same q r ps e all)

Differs-swap : (q r : EntityRelation) → str_eq q.relation_id r.relation_id ≡ false → Differs q r
Differs-swap q r h = elim (Bool-cases (str_eq r.relation_id q.relation_id)) [
  | inl same ↦ absurd (true≢false (sym ((eq_iff _ _).1 (sym ((eq_iff _ _).0 same))) ∙ h))
  | inr other ↦ other
]

Unique-put_relation :
    (ps : List EntityRelation) (r : EntityRelation) → Unique ps → Unique (put_relation ps r)
unfolding put_relation Unique
Unique-put_relation [] r unique = (tt, tt)
Unique-put_relation (q ∷ qs) r (differs, unique) =
    elim (Bool-cases (str_eq q.relation_id r.relation_id)) [
      | inl same ↦
          simp same
            (Differs-same q r qs ((eq_iff q.relation_id r.relation_id).0 same) differs, unique)
      | inr other ↦ simp other (
        All-put_relation (Differs q) qs r differs (Differs-swap q r other),
        Unique-put_relation qs r unique,
      )
    ]

pub by_relation_id-Unique :
    (kept rs : List EntityRelation) → Unique kept → Unique (by_relation_id kept rs)
unfolding by_relation_id
by_relation_id-Unique kept [] unique = unique
by_relation_id-Unique kept (r ∷ rs) unique =
    by_relation_id-Unique (put_relation kept r) rs (Unique-put_relation kept r unique)

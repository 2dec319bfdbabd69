-- ===== src/Runtime/Restore/Laws.antt =====
-- Restoring transport nulls is proved by the record hash, changes nothing else, and is idempotent.
use smpp_telemetry_platform.Base.{
  ◌≡◌, ◌≢◌, ◌⊎◌, inl, inr, refl, ap, ◌∙◌, String, Bool, true, false, eq_iff, arith, Bool-cases,
}
use mathlib.Core.Bool.{false≢true}
use smpp_telemetry_platform.Base.Result.{Result, ok, err}
use smpp_telemetry_platform.Json.{Value, Fields, undefined, str, obj, get, strict_eq}
use smpp_telemetry_platform.Canonical.{Printer}
use smpp_telemetry_platform.Canonical.Hash.{set, record_hash}
use smpp_telemetry_platform.Runtime.Restore.{
  restored_payload, hash_proves, restore, restore_with, choose, proven, candidate_of,
}
use smpp_telemetry_platform.Runtime.Restore.Nulls.{Nulled, restored_payload-Nulled, get-set}

Result-cases {ℓ} :
    {A : Type ℓ} (r : Result A) → ((a : A) × (r ≡ ok a)) ⊎ ((code : String) × (r ≡ err code))
Result-cases (ok a) = inl (a, refl)
Result-cases (err code) = inr (code, refl)

is_text-swap : (h : String) (v : Value) → strict_eq (str h) v ≡ true → v ≡ str h
unfolding strict_eq
is_text-swap h (str s) e = ground (arith, eq_iff h s)
is_text-swap h _ e = cc

module _ (p : Printer) (sha256 : String → String) where
  -- A record whose hash is right is left alone.
  restore_with-fixed :
      (r : Result Bool) (e : Fields) → proven r ≡ true → restore_with p sha256 r e ≡ e
  unfolding restore_with
  restore_with-fixed (ok true) e h = refl
  restore_with-fixed (ok false) e h = cc
  restore_with-fixed (err code) e h = cc

  abbrev candidate : Fields → Fields
  candidate e = candidate_of (get e "attributes") (get e "payload") e

  restore_with-cases :
      (r : Result Bool) (e : Fields)
      → (restore_with p sha256 r e ≡ e)
        ⊎ ((restore_with p sha256 r e ≡ candidate e)
            × (proven (hash_proves p sha256 (candidate e)) ≡ true))
  unfolding restore_with choose
  restore_with-cases (ok true) e = inl refl
  restore_with-cases (ok false) e =
      elim (Bool-cases (proven (hash_proves p sha256 (candidate e)))) [
        | inl right ↦ inr (rw right, right)
        | inr wrong ↦ inl (rw wrong)
      ]
  restore_with-cases (err code) e = inl refl

  -- Restoring a restored value changes nothing.
  pub restore-restore : (v : Value) → restore p sha256 (restore p sha256 v) ≡ restore p sha256 v
  unfolding restore
  restore-restore (obj e) = elim (restore_with-cases (hash_proves p sha256 e) e) [
    | inl same ↦ rw (same, same)
    | inr (moved, right) ↦
        rw moved
          (ap obj (restore_with-fixed (hash_proves p sha256 (candidate e)) (candidate e) right))
  ]
  restore-restore undefined = refl
  restore-restore _ = refl

  -- What the restored envelope `c` of `e` owes: its own hash, and nothing but nulls in the payload.
  pub record IsRestored (e c : Fields) : Type 0 where
    pub hash : String
    pub computed : record_hash p sha256 c ≡ ok hash
    pub carried : get c "recordHash" ≡ str hash
    pub others : (k : String) → k ≢ "payload" → get c k ≡ get e k
    pub before : Fields
    pub after : Fields
    pub payload_before : get e "payload" ≡ obj before
    pub payload_after : get c "payload" ≡ obj after
    pub nulls : Nulled before after

  -- A proven hash is the record's own.
  hash_proves-hash :
      (c : Fields)
      → proven (hash_proves p sha256 c) ≡ true
      → (h : String) × (record_hash p sha256 c ≡ ok h) × (get c "recordHash" ≡ str h)
  unfolding hash_proves
  hash_proves-hash c right = elim (Result-cases (record_hash p sha256 c)) [
    | inl (h, e) ↦ (h, e, is_text-swap h (get c "recordHash") (rw (e, hash_proves) at right))
    | inr (code, e) ↦ absurd (false≢true (rw (e, hash_proves) at right))
  ]

  candidate-IsRestored :
      (e : Fields) (a q : Value)
      → get e "payload" ≡ q
      → proven (hash_proves p sha256 (candidate_of a q e)) ≡ true
      → (candidate_of a q e ≡ e) ⊎ IsRestored e (candidate_of a q e)
  candidate-IsRestored e (obj a) (obj q) given right =
      let q' = restored_payload e a q in
      let c = set "payload" (obj q') e in
      let (h, computed, carried) = hash_proves-hash c right in
      inr (record {
        hash = h;
        computed = computed;
        carried = carried;
        others = λ k ne. get-set "payload" k (obj q') e ∙ ground (arith, eq_iff "payload" k);
        before = q;
        after = q';
        payload_before = given;
        payload_after = get-set "payload" "payload" (obj q') e;
        nulls = restored_payload-Nulled e a q;
      })
  candidate-IsRestored e (obj a) undefined given right = inl refl
  candidate-IsRestored e (obj a) _ given right = inl refl
  candidate-IsRestored e undefined q given right = inl refl
  candidate-IsRestored e _ q given right = inl refl

  -- The value comes back unchanged, or with nulls in its payload that its record hash proves.
  pub restore-IsRestored :
      (e : Fields)
      → (restore p sha256 (obj e) ≡ obj e)
        ⊎ ((c : Fields) × (restore p sha256 (obj e) ≡ obj c) × IsRestored e c)
  unfolding restore
  restore-IsRestored e = elim (restore_with-cases (hash_proves p sha256 e) e) [
    | inl same ↦ inl (ap obj same)
    | inr (moved, right) ↦
        elim (candidate-IsRestored e (get e "attributes") (get e "payload") refl right) [
          | inl same ↦ inl (ap obj (moved ∙ same))
          | inr restored ↦ inr (candidate e, ap obj moved, restored)
        ]
  ]

-- ===== src/Wal/Compact/Released.antt =====
-- What a compaction has made sure of for the segments that it plans.
use mathlib.Core.Bool.{true≢false}
use smpp_telemetry_platform.Base.{
  ℕ, max, ◌≤◌, ◌<◌, ◌≡◌, ◌≢◌, ◌⊎◌, inl, inr, refl, sym, ◌∙◌, ap, Bool, true, false, not, String,
  Option, none, some, List, [], ◌∷◌, arith, eq_iff, any, All, Bool-cases, Option-cases,
}
use smpp_telemetry_platform.Base.Result.{
  Result, ok, Ensures, after, holding, required, Ensures-ok, Ensures-err,
}
use smpp_telemetry_platform.State.{Segment, GcState, hot, planned, complete}
use smpp_telemetry_platform.State.Planned.{IsArchived, is_blank-IsGiven}
use smpp_telemetry_platform.Wal.Compact.{
  Target, Pin, Store, Plan, checkpoint_sequence, is_hot, is_pending, holds, is_live, is_pinned,
  reason, sort_out, plan_of, is_registered, is_empty, knows_targets, planned_compaction, verify,
  verify_all, verified_compaction,
}

any-All {ℓ} :
    {A : Type ℓ} (p : A → Bool) (xs : List A) → any p xs ≡ false → All (λ x. p x ≡ false) xs
any-All p [] h = tt
any-All p (x ∷ xs) h = (ground (arith, h), any-All p xs (ground (arith, h)))

All-map {ℓ κ κ'} :
    {A : Type ℓ} {P : A → Type κ} {Q : A → Type κ'}
    → ((x : A) → P x → Q x)
    → (xs : List A) → All P xs
    → All Q xs
All-map f [] all = tt
All-map f (x ∷ xs) (p, all) = (f x p, All-map f xs all)

is_hot-hot : (state : GcState) → is_hot state ≡ true → state ≡ hot
unfolding is_hot
is_hot-hot hot h = refl
is_hot-hot planned h = absurd (true≢false (sym h))
is_hot-hot complete h = absurd (true≢false (sym h))

not_empty : (ts : List Target) → is_empty ts ≡ false → ts ≢ []
unfolding is_empty
not_empty [] h k = true≢false h
not_empty (t ∷ ts) h k = nonempty k
  where
    nonempty : t ∷ ts ≢ []
    nonempty k = cc

-- the target is retired or has got past the segment
abbrev HasPassed : Store → Segment → Target → Type 0
HasPassed s g t =
    t.status ≢ "retired" → g.last_sequence ≤ max t.start_sequence (checkpoint_sequence s t.id)

is_pending-HasPassed :
    (s : Store) (g : Segment) (t : Target) → is_pending s g t ≡ false → HasPassed s g t
unfolding is_pending
is_pending-HasPassed s g t h live = ground (arith, h, live, eq_iff t.status "retired")

module _ (file_sha256 : String → Result String) where
  -- the file at the archive's path has the recorded hash
  abbrev IsVerified : Segment → Type 0
  IsVerified g =
      (path : String) × (hash : String) × (g.archive_path ≡ some path)
      × (g.archive_hash ≡ some hash)
      × (file_sha256 path ≡ ok hash)

  verify-IsVerified :
      (g : Segment) (path hash : Option String)
      → g.archive_path ≡ path
      → g.archive_hash ≡ hash
      → Ensures (λ _. IsVerified g) (verify file_sha256 path hash)
  unfolding verify
  verify-IsVerified g none hash p h = Ensures-err
  verify-IsVerified g (some path) none p h = Ensures-err
  verify-IsVerified g (some path) (some hash) p h = after λ found e.
      required "WAL_ARCHIVE_VERIFY_FAILED"
        (λ same. (path, hash, p, h, e ∙ ap ok ((eq_iff found hash).0 same)))

  verify_all-IsVerified :
      (gs : List Segment) → Ensures (λ _. All IsVerified gs) (verify_all file_sha256 gs)
  unfolding verify_all
  verify_all-IsVerified [] = Ensures-ok tt
  verify_all-IsVerified (g ∷ gs) =
      holding (verify-IsVerified g g.archive_path g.archive_hash refl refl)
        λ _ here. record { returns = λ u e. (here, (verify_all-IsVerified gs).returns u e) }

module _ (date_parse : String → Option ℕ) (now : ℕ) where
  -- the pin has expired or lies wholly before or after the segment
  abbrev Spares : Segment → Pin → Type 0
  Spares g pin =
      is_live date_parse now pin.expires_at ≡ true
      → (g.last_sequence < pin.from_sequence) ⊎ (pin.through_sequence < g.first_sequence)

  is_pinned-Spares :
      (g : Segment) (pin : Pin) → is_pinned date_parse now g pin ≡ false → Spares g pin
  unfolding is_pinned holds
  is_pinned-Spares g pin h live = ground (arith, h, live)

  -- nothing that the store knows of still reads the segment
  pub record IsFree (s : Store) (g : Segment) : Type 0 where
    pub is_uncollected : g.gc_state ≡ hot
    pub archived : IsArchived g
    pub passed : All (HasPassed s g) s.targets
    pub spared : All (Spares g) s.pins

  reason-IsFree :
      (s : Store) (g : Segment)
      → is_hot g.gc_state ≡ true
      → reason date_parse now s g ≡ none
      → IsFree s g
  unfolding reason
  reason-IsFree s g h r = record {
    is_uncollected = is_hot-hot g.gc_state h;
    archived = record {
      closed = ground (arith, r);
      hash = is_blank-IsGiven g.archive_hash (ground (arith, r));
      path = is_blank-IsGiven g.archive_path (ground (arith, r));
      indexed = ground (arith, r);
    };
    passed =
        All-map (is_pending-HasPassed s g) s.targets
          (any-All (is_pending s g) s.targets (ground (arith, r)));
    spared =
        All-map (is_pinned-Spares g) s.pins
          (any-All (is_pinned date_parse now g) s.pins (ground (arith, r)));
  }

  plan_of-IsFree :
      (s : Store) (gs : List Segment) → All (IsFree s) (plan_of date_parse now s gs).eligible
  unfolding plan_of sort_out
  plan_of-IsFree s [] = tt
  plan_of-IsFree s (g ∷ gs) = elim (Bool-cases (is_hot g.gc_state)) [
    | inl is_hot ↦ elim (Option-cases (reason date_parse now s g)) [
      | inl free ↦ simp (is_hot, free) (reason-IsFree s g is_hot free, plan_of-IsFree s gs)
      | inr (why, kept) ↦ simp (is_hot, kept) (plan_of-IsFree s gs)
    ]
    | inr collected ↦ simp collected (plan_of-IsFree s gs)
  ]

  planned_compaction-Ensures :
      (s : Store)
      → Ensures
          (λ plan.
            (s.targets ≢ [])
            × All (λ key. is_registered s.targets key ≡ true) s.observed
            × All (IsFree s) plan.eligible)
          (planned_compaction date_parse now s)
  unfolding planned_compaction knows_targets
  planned_compaction-Ensures s =
      holding {Q = λ _. knows_targets s ≡ true}
        (required "WAL_GC_TARGET_REGISTRY_INCOMPLETE" λ known. known)
        λ _ known. Ensures-ok (
          not_empty s.targets (ground (arith, known)),
          All-map (λ key h. ground (arith, h)) s.observed
              (any-All (λ key. not (is_registered s.targets key)) s.observed
                (ground (arith, known))),
          plan_of-IsFree s s.segments,
        )

  module _ (file_sha256 : String → Result String) where
    pub record IsReleased (s : Store) (plan : Plan) : Type 0 where
      pub targets : s.targets ≢ []
      pub registered : All (λ key. is_registered s.targets key ≡ true) s.observed
      pub free : All (IsFree s) plan.eligible
      pub verified : All (IsVerified file_sha256) plan.eligible

    ensures :
        (gc_enabled : Bool) (s : Store)
        → Ensures
            (λ plan. (gc_enabled ≡ true) × IsReleased s plan)
            (verified_compaction date_parse now file_sha256 gc_enabled s)
    unfolding verified_compaction planned_compaction
    ensures gc_enabled s = holding (planned_compaction-Ensures s) λ plan known.
        holding {Q = λ _. gc_enabled ≡ true} (required "WAL_GC_DISABLED" λ enabled. enabled)
          λ _ enabled. holding (verify_all-IsVerified file_sha256 plan.eligible) λ _ verified.
            Ensures-ok (
              enabled,
              record {
                targets = known.0;
                registered = known.1;
                free = known.2;
                verified = verified;
              },
            )

    -- A compaction that goes on to `planGc` has been allowed to, knows some target and every target
    -- that was observed. Each segment of its plan is hot, closed, indexed and archived, with an
    -- archive file of the recorded hash. Every target that is not retired has got past it, and no
    -- live pin overlaps it.
    pub verified_compaction-IsReleased :
        (gc_enabled : Bool) (s : Store) (plan : Plan)
        → verified_compaction date_parse now file_sha256 gc_enabled s ≡ ok plan
        → (gc_enabled ≡ true) × IsReleased s plan
    verified_compaction-IsReleased gc_enabled s = (ensures gc_enabled s).returns

-- ===== src/State/Sound.antt =====
-- What every request of the durable state keeps: the usage table is exact and the frames are
-- indexed.
pub mod Reach
use smpp_telemetry_platform.Base.{
  ℕ, zero, suc, ◌+◌, ◌-◌, ◌≤◌, ◌≡◌, ◌≢◌, refl, ap, sym, ◌∙◌, subst, Bool, true, false, not, ◌&&◌,
  String, List, [], ◌∷◌, Option, none, some, str_eq, eq_iff, arith, if◌then◌else◌, Bool-cases,
  Option-cases, inl, inr, ltb, ◌==◌,
}
use smpp_telemetry_platform.Base.Result.{
  Result, ok, err, ◌>>=◌, Ensures, after, holding, Ensures-ok, Ensures-err, in_both, on_test,
}
use smpp_telemetry_platform.Json.{Value, null, num, Number, coalesce, pos, is_safe_integer}
use smpp_telemetry_platform.State.{
  Platform, Frame, Entry, Usage, State, StateOperation, put, delete, check, increment,
}
use smpp_telemetry_platform.State.Accounts.{IsExact}
use smpp_telemetry_platform.State.Accounts.Kept.{write-Exact, erase-Exact}
use smpp_telemetry_platform.State.Counts.{
  IsIndexed, of_kind, max_sequence-IsIndexed, max_ordinal-IsIndexed, insert-IsIndexed,
}
use smpp_telemetry_platform.State.Frames.{
  index_frame, index_at, frame_at, insert_tables, max_sequence, max_ordinal,
}
use smpp_telemetry_platform.State.Collect.{save_segment, gc_plan, with_segments}
use smpp_telemetry_platform.State.Table.{
  at_key, text_at, upsert, remove, usage_of, prior_bytes, fresh, account, discount_prior,
  with_table, namespace_usage, write, put_value, erase, increment_value, apply, operation,
  transaction, observe_target, number_of, lookup, amount_or_one, same_text, is_negative,
  namespace_of,
}

pub record IsSound (p : Platform) (s : State) : Type 0 where
  pub exact : IsExact p.byte_length s.kv s.usage
  pub indexed : IsIndexed s.frames s.kinds

module _ (p : Platform) where
  abbrev Keeps {ℓ} : {A : Type ℓ} → Result (State × A) → Type ℓ
  Keeps r = Ensures (λ t. IsSound p t.0) r

  put_value-IsSound :
      (ns k : String) (v : Value) (s : State) → IsSound p s → Keeps (put_value p ns k v s)
  unfolding put_value write with_table
  put_value-IsSound ns k v s sound = after λ text e.
      Ensures-ok (record { exact = write-Exact p ns k s sound.exact text; indexed = sound.indexed })

  increment_value-IsSound :
      (ns k : String) (c a : Number) (s : State)
      → IsSound p s
      → Keeps (increment_value p ns k c a s)
  unfolding increment_value
  increment_value-IsSound ns k c a s sound =
      in_both _
        (holding (put_value-IsSound ns k (num (p.plus c a)) s sound) λ r kept. Ensures-ok kept)
        Ensures-err

  apply-IsSound : (op : StateOperation) (s : State) → IsSound p s → Keeps (apply p op s)
  unfolding apply erase with_table
  apply-IsSound (put ns k v) s sound = put_value-IsSound ns k v s sound
  apply-IsSound (delete ns k) s sound =
      Ensures-ok (record { exact = erase-Exact p ns k s sound.exact; indexed = sound.indexed })
  apply-IsSound (check ns k v) s sound = in_both _ (Ensures-ok sound) Ensures-err
  apply-IsSound (increment ns k a) s sound =
      after λ c e. increment_value-IsSound ns k c (amount_or_one a) s sound

  operation-IsSound : (op : StateOperation) (s : State) → IsSound p s → Keeps (operation p op s)
  unfolding operation
  operation-IsSound op s sound = in_both _ Ensures-err (apply-IsSound op s sound)

  pub transaction-IsSound :
      (ops : List StateOperation) (s : State) → IsSound p s → Keeps (transaction p ops s)
  unfolding transaction
  transaction-IsSound [] s sound = Ensures-ok sound
  transaction-IsSound (op ∷ ops) s sound =
      holding (operation-IsSound op s sound)
        λ r kept. holding (transaction-IsSound ops r.0 kept) λ t kept'. Ensures-ok kept'

  pub observe_target-IsSound :
      (key now : String) (s : State)
      → IsSound p s
      → Ensures (IsSound p) (observe_target p key now s)
  unfolding observe_target
  observe_target-IsSound key now s sound =
      in_both _
        (holding (operation-IsSound (put "observed_target" key _) s sound) λ r kept.
          holding (operation-IsSound (increment "wal" "protectionRevision" none) r.0 kept)
            λ t kept'. Ensures-ok kept')
        (Ensures-ok sound)

  -- the row that `indexFrame` inserts
  insert_tables-IsSound :
      (f : Frame) (s : State)
      → f.sequence ≡ suc (max_sequence s.frames)
      → IsSound p s
      → IsSound p (insert_tables f s)
  unfolding insert_tables
  insert_tables-IsSound f s next sound = record {
    exact = sound.exact;
    indexed =
        insert-IsIndexed f s.frames s.kinds (suc (max_ordinal f.kind s.kinds)) sound.indexed
          (next ∙ ap (λ (n : ℕ). suc n) (max_sequence-IsIndexed s.frames s.kinds sound.indexed))
          (ap (λ (n : ℕ). suc n) (max_ordinal-IsIndexed f.kind s.frames s.kinds sound.indexed));
  }

  index_at-IsSound :
      (found : Option Frame) (f : Frame) (ops : List StateOperation) (s : State)
      → IsSound p s
      → Keeps (index_at p found f ops s)
  unfolding index_at
  index_at-IsSound (some existing) f ops s sound = in_both _ (Ensures-ok sound) Ensures-err
  index_at-IsSound none f ops s sound =
      on_test (f.sequence == suc (max_sequence s.frames))
        (λ next.
          holding
            (transaction-IsSound ops (insert_tables f s)
              (insert_tables-IsSound f s (ground arith) sound))
            λ r kept. Ensures-ok kept)
        (λ other. Ensures-err)

  pub index_frame-IsSound :
      (f : Frame) (ops : List StateOperation) (s : State)
      → IsSound p s
      → Keeps (index_frame p f ops s)
  unfolding index_frame
  index_frame-IsSound f ops s sound =
      index_at-IsSound (frame_at f.segment f.offset_end s.frames) f ops s sound

  pub gc_plan-IsSound :
      (ids : List ℕ) (ops : List StateOperation) (s : State)
      → IsSound p s
      → Ensures (IsSound p) (gc_plan p ids ops s)
  unfolding gc_plan with_segments
  gc_plan-IsSound ids ops s sound = in_both _ Ensures-err (
      after λ segments e.
        holding
          (transaction-IsSound ops (with_segments s segments)
            (record { exact = sound.exact; indexed = sound.indexed }))
          λ r kept. Ensures-ok kept)

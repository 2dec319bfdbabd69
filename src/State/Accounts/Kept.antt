-- ===== src/State/Accounts/Kept.antt =====
-- Every operation keeps the usage table exact.
use smpp_telemetry_platform.Base.{
  ℕ, ◌≡◌, refl, sym, ◌∙◌, subst, false, String, List, str_eq, eq_iff, arith, Bool-cases, inl, inr,
}
use smpp_telemetry_platform.State.{Platform, Entry, Usage, State}
use smpp_telemetry_platform.State.Accounts.{total, rows, IsExact}
use smpp_telemetry_platform.State.Accounts.Rows.{
  usage_of-account, usage_of-account_other, usage_of-discount_prior, usage_of-discount_prior_other,
  total-upsert, rows-upsert, total-remove, rows-remove, total-upsert_other, rows-upsert_other,
  total-remove_other, rows-remove_other,
}
use smpp_telemetry_platform.State.Table.{
  text_at, upsert, remove, usage_of, prior_bytes, fresh, account, discount_prior, with_table, write,
  erase,
}

-- the tables of a state are exact
abbrev pub Exact : Platform → State → Type 0
Exact p s = IsExact p.byte_length s.kv s.usage

module _ (size : String → ℕ) (ns : String) (kv kv' : List Entry) (us us' : List Usage)
    (exact : IsExact size kv us) where
  -- A change of one namespace's rows keeps the tables exact, if it counts them.
  changed_at :
      usage_of us' ns ≡ (total size ns kv', rows ns kv')
      → ((other : String)
          → str_eq ns other ≡ false
          → (usage_of us' other ≡ usage_of us other)
            × (total size other kv' ≡ total size other kv)
            × (rows other kv' ≡ rows other kv))
      → IsExact size kv' us'
  changed_at here elsewhere = record {
    counted = λ other. elim (Bool-cases (str_eq ns other)) [
      | inl same ↦
          subst (λ (t : String). usage_of us' t ≡ (total size t kv', rows t kv'))
            ((eq_iff ns other).0 same) here
      | inr apart ↦
          let (u, t, r) = elsewhere other apart in u ∙ (exact.counted other ∙ sym (rw (t, r) refl))
    ];
  }

module _ (p : Platform) (ns k : String) (s : State) (exact : Exact p s) where
  pub write-Exact : (text : String) → Exact p (write p ns k text s)
  unfolding write with_table
  write-Exact text =
      let added = p.byte_length text in
      let prior = text_at ns k s.kv in
      let removed = prior_bytes p.byte_length prior in
      let counts = exact.counted ns in
      changed_at p.byte_length ns s.kv (upsert ns k text s.kv) s.usage
        (account ns added removed (fresh prior) s.usage) exact
        (ground (
          arith,
          usage_of-account ns added removed (fresh prior) s.usage,
          total-upsert p.byte_length ns k text s.kv,
          rows-upsert p.byte_length ns k text s.kv,
        ))
        (λ other apart. (
          usage_of-account_other ns other added removed (fresh prior) s.usage apart,
          total-upsert_other p.byte_length ns k other apart text s.kv,
          rows-upsert_other p.byte_length ns k other apart text s.kv,
        ))

  pub erase-Exact : Exact p (erase p ns k s)
  unfolding erase with_table
  erase-Exact =
      let prior = text_at ns k s.kv in
      let counts = exact.counted ns in
      changed_at p.byte_length ns s.kv (remove ns k s.kv) s.usage
        (discount_prior p ns prior s.usage) exact
        (ground (
          arith,
          usage_of-discount_prior p ns prior s.usage,
          total-remove p.byte_length ns k s.kv,
          rows-remove p.byte_length ns k s.kv,
        ))
        (λ other apart. (
          usage_of-discount_prior_other p ns prior s.usage other apart,
          total-remove_other p.byte_length ns k other apart s.kv,
          rows-remove_other p.byte_length ns k other apart s.kv,
        ))

-- ===== src/State/Accounts/Rows.antt =====
-- What the statements of `put` and `delete` do to a namespace's totals.
use smpp_telemetry_platform.Base.{
  ℕ, ◌+◌, ◌-◌, ◌≡◌, refl, false, String, List, [], ◌∷◌, Option, none, some, str_eq, eq_iff, arith,
}
use smpp_telemetry_platform.State.{Platform, Entry, Usage}
use smpp_telemetry_platform.State.Accounts.{total, rows}
use smpp_telemetry_platform.State.Table.{
  at_key, text_at, upsert, remove, usage_of, prior_bytes, fresh, account, discount, discount_prior,
}

pub usage_of-account :
    (ns : String) (added removed n : ℕ) (us : List Usage)
    → usage_of (account ns added removed n us) ns
      ≡ ((usage_of us ns).0 + added - removed, (usage_of us ns).1 + n)
unfolding usage_of account
usage_of-account ns added removed n [] = ground (arith, eq_iff ns ns)
usage_of-account ns added removed n (u ∷ us) =
    ground (arith, usage_of-account ns added removed n us)

pub usage_of-account_other :
    (ns other : String) (added removed n : ℕ) (us : List Usage)
    → str_eq ns other ≡ false
    → usage_of (account ns added removed n us) other ≡ usage_of us other
unfolding usage_of account
usage_of-account_other ns other added removed n [] h = rw h
usage_of-account_other ns other added removed n (u ∷ us) h =
    ground (arith, usage_of-account_other ns other added removed n us h, eq_iff u.namespace ns)

usage_of-discount :
    (ns : String) (removed : ℕ) (us : List Usage)
    → usage_of (discount ns removed us) ns ≡ ((usage_of us ns).0 - removed, (usage_of us ns).1 - 1)
unfolding usage_of discount
usage_of-discount ns removed [] = ground arith
usage_of-discount ns removed (u ∷ us) = ground (arith, usage_of-discount ns removed us)

usage_of-discount_other :
    (ns other : String) (removed : ℕ) (us : List Usage)
    → str_eq ns other ≡ false
    → usage_of (discount ns removed us) other ≡ usage_of us other
unfolding usage_of discount
usage_of-discount_other ns other removed [] h = refl
usage_of-discount_other ns other removed (u ∷ us) h =
    ground (arith, usage_of-discount_other ns other removed us h, eq_iff u.namespace ns)

pub usage_of-discount_prior :
    (p : Platform) (ns : String) (prior : Option String) (us : List Usage)
    → usage_of (discount_prior p ns prior us) ns
      ≡ ((usage_of us ns).0 - prior_bytes p.byte_length prior, (usage_of us ns).1 + fresh prior - 1)
unfolding discount_prior prior_bytes fresh
usage_of-discount_prior p ns none us = ground arith
usage_of-discount_prior p ns (some text) us =
    ground (arith, usage_of-discount ns (p.byte_length text) us)

pub usage_of-discount_prior_other :
    (p : Platform) (ns : String) (prior : Option String) (us : List Usage) (other : String)
    → str_eq ns other ≡ false
    → usage_of (discount_prior p ns prior us) other ≡ usage_of us other
unfolding discount_prior
usage_of-discount_prior_other p ns none us other h = refl
usage_of-discount_prior_other p ns (some text) us other h =
    usage_of-discount_other ns other (p.byte_length text) us h

module _ (size : String → ℕ) (ns k : String) where
  pub total-upsert :
      (text : String) (es : List Entry)
      → total size ns (upsert ns k text es) + prior_bytes size (text_at ns k es)
        ≡ total size ns es + size text
  unfolding total upsert text_at at_key prior_bytes
  total-upsert text [] = ground (arith, eq_iff ns ns)
  total-upsert text (e ∷ es) = ground (arith, total-upsert text es)

  pub rows-upsert :
      (text : String) (es : List Entry)
      → rows ns (upsert ns k text es) ≡ rows ns es + fresh (text_at ns k es)
  unfolding rows upsert text_at at_key fresh
  rows-upsert text [] = ground (arith, eq_iff ns ns)
  rows-upsert text (e ∷ es) = ground (arith, rows-upsert text es)

  pub total-remove :
      (es : List Entry)
      → total size ns (remove ns k es) + prior_bytes size (text_at ns k es) ≡ total size ns es
  unfolding total remove text_at at_key prior_bytes
  total-remove [] = refl
  total-remove (e ∷ es) = ground (arith, total-remove es)

  pub rows-remove :
      (es : List Entry) → rows ns (remove ns k es) + 1 ≡ rows ns es + fresh (text_at ns k es)
  unfolding rows remove text_at at_key fresh
  rows-remove [] = refl
  rows-remove (e ∷ es) = ground (arith, rows-remove es)

  module _ (other : String) (h : str_eq ns other ≡ false) where
    pub total-upsert_other :
        (text : String) (es : List Entry)
        → total size other (upsert ns k text es) ≡ total size other es
    unfolding total upsert at_key
    total-upsert_other text [] = rw h
    total-upsert_other text (e ∷ es) =
        ground (arith, total-upsert_other text es, eq_iff e.namespace ns, h)

    pub rows-upsert_other :
        (text : String) (es : List Entry) → rows other (upsert ns k text es) ≡ rows other es
    unfolding rows upsert at_key
    rows-upsert_other text [] = rw h
    rows-upsert_other text (e ∷ es) =
        ground (arith, rows-upsert_other text es, eq_iff e.namespace ns, h)

    pub total-remove_other :
        (es : List Entry) → total size other (remove ns k es) ≡ total size other es
    unfolding total remove at_key
    total-remove_other [] = refl
    total-remove_other (e ∷ es) = ground (arith, total-remove_other es, eq_iff e.namespace ns, h)

    pub rows-remove_other : (es : List Entry) → rows other (remove ns k es) ≡ rows other es
    unfolding rows remove at_key
    rows-remove_other [] = refl
    rows-remove_other (e ∷ es) = ground (arith, rows-remove_other es, eq_iff e.namespace ns, h)

-- ===== src/Generation/Renewed.antt =====
-- What the refreshing of a generation's lease does to it.
use mathlib.Core.Option.{some-injective}
use smpp_telemetry_platform.Base.{
  ℕ, none, subst, inl, inr, Bool-cases, Option-cases, ◌≢◌, ◌⊎◌, max, ◌+◌, ◌≤◌, ◌≡◌, refl, sym, ◌∙◌,
  true, false, String, Option, some, arith, str_eq, eq_iff, ◌&&◌,
}
use smpp_telemetry_platform.Base.Result.{Result, ok, err, ◌>>=◌, some_or}
use smpp_telemetry_platform.Canonical.Hash.{set}
use smpp_telemetry_platform.Json.{
  Value, Fields, obj, str, field, end, get, coalesce, null, truthy, strict_eq,
}
use smpp_telemetry_platform.Json.Equal.{strict_eq-str}
use smpp_telemetry_platform.State.{Platform, State}
use smpp_telemetry_platform.State.Table.{lookup, text_at}
use smpp_telemetry_platform.State.Swap.{replaces, refuses, transaction-Swapping}
use smpp_telemetry_platform.Generation.{
  generation_key, lifecycles, fields_of, is_inactive, is_active, time_of, renewed, swap_lease,
  extend, refresh_generation_lease,
}

none≢some {ℓ} : {A : Type ℓ} (a : A) → none ≢ some a
none≢some a h = cc

get-set : (key : String) (v : Value) (fs : Fields) → get (set key v fs) key ≡ v
unfolding get set
get-set key v end = ground (arith, eq_iff key key)
get-set key v (field k w fs) = ground (arith, get-set key v fs)

get-set_other :
    (key other : String) (v : Value) (fs : Fields)
    → str_eq key other ≡ false
    → get (set key v fs) other ≡ get fs other
unfolding get set
get-set_other key other v end h = ground (arith, h)
get-set_other key other v (field k w fs) h =
    ground (arith, h, get-set_other key other v fs h, eq_iff k key)

module _ (target generation epoch now until : String) (previous : Value) where
  abbrev named : Fields
  named =
      set "walEpoch" (str epoch)
        (set "generation" (str generation) (set "targetId" (str target) (fields_of previous)))

  renewed-readable_until :
      get (fields_of (renewed target generation epoch now until previous)) "readableUntil"
      ≡ str until
  unfolding renewed fields_of
  renewed-readable_until =
      let active = set "status" (str "active") named in
      get-set_other "updatedAt" "readableUntil" (str now) (set "readableUntil" (str until) active)
        refl
      ∙ get-set "readableUntil" (str until) active

  renewed-active :
      get (fields_of (renewed target generation epoch now until previous)) "status" ≡ str "active"
  unfolding renewed fields_of
  renewed-active =
      let active = set "status" (str "active") named in
      get-set_other "updatedAt" "status" (str now) (set "readableUntil" (str until) active) refl
      ∙ (get-set_other "readableUntil" "status" (str until) active refl
          ∙ get-set "status" (str "active") named)

-- draining or retired: there, and not active
abbrev IsInactive : Value → Type 0
IsInactive previous = (truthy previous ≡ true) × (get (fields_of previous) "status" ≢ str "active")

-- there is none, or it is active
abbrev IsLive : Value → Type 0
IsLive previous = (truthy previous ≡ false) ⊎ (get (fields_of previous) "status" ≡ str "active")

is_inactive-IsInactive : (previous : Value) → is_inactive previous ≡ true → IsInactive previous
unfolding is_inactive is_active strict_eq
is_inactive-IsInactive previous h =
    (ground (arith, h), λ active. ground (arith, h, active, eq_iff "active" "active"))

is_inactive-IsLive : (previous : Value) → is_inactive previous ≡ false → IsLive previous
unfolding is_inactive is_active
is_inactive-IsLive previous h = elim (Bool-cases (truthy previous)) [
  | inr nothing ↦ inl nothing
  | inl there ↦
      inr (strict_eq-str (get (fields_of previous) "status") "active" (ground (arith, h, there)))
]

module _ (p : Platform) (date_parse : String → Option ℕ) (iso : ℕ → Option String) where
  -- the lifecycle is returned and stored, and no other row changes: it is active, and its lease
  -- lasts ten minutes from now at least and is not shorter than it was
  pub record IsRefreshed (later : State) (key : String) (old time : ℕ) (r : Result (State × Value))
      : Type 0 where
    pub state : State
    pub lifecycle : Value
    pub returned : r ≡ ok (state, lifecycle)
    pub stored : text_at lifecycles key state.kv ≡ p.stringify lifecycle
    pub others :
        (ns other : String)
        → str_eq lifecycles ns && str_eq key other ≡ false
        → text_at ns other state.kv ≡ text_at ns other later.kv
    pub until : ℕ
    pub text : String
    pub written : iso until ≡ some text
    pub readable_until : get (fields_of lifecycle) "readableUntil" ≡ str text
    pub from_now : time + 600000 ≤ until
    pub no_shorter : old ≤ until
    pub active : get (fields_of lifecycle) "status" ≡ str "active"

  -- the old end of the lease, or now where there is none
  abbrev old_time : Value → String → Option ℕ
  old_time previous now =
      time_of date_parse (coalesce (get (fields_of previous) "readableUntil") (str now))

  -- how refreshing a lease ends, by the lifecycle that it reads
  pub data Refreshing (later : State) (key now : String) (previous : Value)
      (r : Result (State × Value)) : Type 0 where
    stays : IsInactive previous → r ≡ ok (later, previous) → Refreshing later key now previous r
    extends :
        IsLive previous
        → (old time : ℕ) → old_time previous now ≡ some old
        → date_parse now ≡ some time
        → IsRefreshed later key old time r
        → Refreshing later key now previous r
    loses :
        IsLive previous
        → p.stringify (coalesce (lookup p later lifecycles key) null)
          ≢ p.stringify (coalesce previous null)
        → r ≡ err "STATE_COMPARE_FAILED"
        → Refreshing later key now previous r
    has_no_time :
        IsLive previous
        → ((old time : ℕ)
            → old_time previous now ≡ some old
            → date_parse now ≡ some time
            → iso (max old (time + 600000)) ≡ none)
        → r ≡ err "Invalid time value"
        → Refreshing later key now previous r

  module _ (stringifies : (fs : Fields) → (text : String) × (p.stringify (obj fs) ≡ some text))
      (target generation epoch now : String) where
    renewed-written :
        (until : String) (previous : Value)
        → (text : String) × (p.stringify (renewed target generation epoch now until previous)
            ≡ some text)
    unfolding renewed
    renewed-written until previous = stringifies _

    swap_lease-Refreshing :
        (previous : Value) (later : State) (old time : ℕ) (until : String)
        → IsLive previous
        → old_time previous now ≡ some old
        → date_parse now ≡ some time
        → iso (max old (time + 600000)) ≡ some until
        → let key = generation_key target generation epoch in
          Refreshing later key now previous
            (swap_lease p key previous (renewed target generation epoch now until previous) later)
    unfolding swap_lease ◌>>=◌
    swap_lease-Refreshing previous later old time until live was at fits =
        let key = generation_key target generation epoch in
        let next = renewed target generation epoch now until previous in
        let (text, written) = renewed-written until previous in
        elim (transaction-Swapping p lifecycles key (coalesce previous null) next text later refl
          written) [
            | replaces t done _ stored others ↦ extends live old time was at (record {
              state = t;
              lifecycle = next;
              returned = rw done refl;
              stored = stored ∙ sym written;
              others = others;
              until = max old (time + 600000);
              text = until;
              written = fits;
              readable_until = renewed-readable_until target generation epoch now until previous;
              from_now = omega arith;
              no_shorter = omega arith;
              active = renewed-active target generation epoch now until previous;
            })
            | refuses failed apart ↦ loses live apart (rw failed refl)
          ]

    extend-Refreshing :
        (previous : Value) (later : State)
        → IsLive previous
        → Refreshing later
            (generation_key target generation epoch)
            now
            previous
            (extend p date_parse iso target generation epoch now previous later)
    unfolding extend ◌>>=◌ some_or
    extend-Refreshing previous later live = elim (Option-cases (old_time previous now)) [
      | inl lost ↦
          has_no_time live (λ old time e. absurd (none≢some old (sym lost ∙ e))) (rw lost refl)
      | inr (old, was) ↦ elim (Option-cases (date_parse now)) [
        | inl lost ↦
            has_no_time live (λ _ time _ e. absurd (none≢some time (sym lost ∙ e)))
              (rw (was, lost) refl)
        | inr (time, at) ↦ elim (Option-cases (iso (max old (time + 600000)))) [
          | inl lost ↦
              has_no_time live
                (λ old' time' e f.
                  rw
                    (
                      sym (some-injective old old' (sym was ∙ e)),
                      sym (some-injective time time' (sym at ∙ f)),
                    )
                    lost)
                (rw (was, at, lost) refl)
          | inr (until, fits) ↦
              subst (Refreshing later (generation_key target generation epoch) now previous)
                (sym (rw (was, at, fits) refl))
                (swap_lease-Refreshing previous later old time until live was at fits)
        ]
      ]
    ]

    -- Refreshing a lease returns a lifecycle that is draining or retired and changes nothing. Where
    -- there is none or an active one, it is renewed, unless the stored one is no longer the one that
    -- was read or there is no time to write: then it throws. A renewed lifecycle is active and is
    -- returned and stored, no other row changes, and its lease lasts ten minutes from now at least
    -- and is not shorter than before. `JSON.stringify` gives a text for every object.
    pub refresh_generation_lease-Refreshing :
        (s later : State)
        → let key = generation_key target generation epoch in
          Refreshing later key now
            (lookup p s lifecycles key)
            (refresh_generation_lease p date_parse iso target generation epoch now s later)
    unfolding refresh_generation_lease
    refresh_generation_lease-Refreshing s later =
        let key = generation_key target generation epoch in
        let previous = lookup p s lifecycles key in
        elim (Bool-cases (is_inactive previous)) [
          | inl inactive ↦ stays (is_inactive-IsInactive previous inactive) (rw inactive refl)
          | inr live ↦
              subst (Refreshing later key now previous) (sym (rw live refl))
                (extend-Refreshing previous later (is_inactive-IsLive previous live))
        ]

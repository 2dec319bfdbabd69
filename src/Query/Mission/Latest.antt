-- ===== src/Query/Mission/Latest.antt =====
-- What `selectCurrentMissionAuthority` returns: the latest observation, and its binding.
use mathlib.Core.List.{Memᴰ}
use smpp_telemetry_platform.Base.{
  ℕ, ◌≡◌, ◌≢◌, refl, String, Option, none, some, List, [], ◌∷◌, All, OnSome, ltb, true, false,
}
use smpp_telemetry_platform.Base.Text.{text_le}
use smpp_telemetry_platform.Query.Urn.{UriCodec}
use smpp_telemetry_platform.Query.Mission.{Observation, Binding, Current, moment}
use smpp_telemetry_platform.Query.Mission.Kept.{Kept}

members : (os : List Observation) → All (λ o. Memᴰ o os) os
members [] = tt
members (o ∷ os) = (Memᴰ.head refl, All-tail os (members os))
  where
    All-tail : (ps : List Observation) → All (λ p. Memᴰ p os) ps → All (λ p. Memᴰ p (o ∷ os)) ps
    All-tail [] all = tt
    All-tail (p ∷ ps) (m, all) = (Memᴰ.tail m, All-tail ps all)

module _ (uri : UriCodec) (date_parse : String → Option ℕ) where
  -- the observation that makes a binding
  abbrev Makes : Current → Binding → Type 0
  Makes current binding =
      (l : Observation) × (current.latest_state ≡ some l)
      × (l.relation_status ≡ "exact")
      × (l.device_mission_id ≡ some binding.device_mission_id)
      × (binding.authority_record_id ≡ l.record_id)
      × (binding.observed_at ≡ l.observed_at)

  -- one observation is not later than another: not by its time, nor by its record id at the same time
  unfoldable pub NotLater : Observation → Observation → Type 0
  NotLater o p =
      (ltb (moment uri date_parse p) (moment uri date_parse o) ≡ false)
      × (moment uri date_parse o ≡ moment uri date_parse p → text_le o.record_id p.record_id ≡ true)

  -- there is no latest observation of none; of some, it is one of them that all others precede
  unfoldable pub IsLatest : List Observation → Option Observation → Type 0
  IsLatest os none = os ≡ []
  IsLatest os (some l) = Memᴰ l os × All (λ o. NotLater o l) os

  pub record IsCurrent (os : List Observation) (current : Current) : Type 0 where
    pub latest : IsLatest os current.latest_state
    pub binding : OnSome (Makes current) current.current_binding
    -- an observation of the mission makes a binding where it is the latest
    pub complete :
        (l : Observation) (mission : String)
        → current.latest_state ≡ some l
        → l.relation_status ≡ "exact"
        → l.device_mission_id ≡ some mission
        → mission ≢ ""
        → (binding : Binding) × (current.current_binding ≡ some binding)

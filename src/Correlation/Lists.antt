-- ===== src/Correlation/Lists.antt =====
-- What sorting and removing repetitions keep of a list of ids.
use smpp_telemetry_platform.Base.{
  ℕ, suc, ◌≤◌, ◌<◌, ◌≡◌, refl, ap, ◌∙◌, true, String, List, [], ◌∷◌, arith, Bool-cases, inl, inr,
  length,
}
use smpp_telemetry_platform.Base.Text.{
  sort, unique, unique_from, insert_text, text_le, one_of, text_length,
}
use smpp_telemetry_platform.Base.Order.{text_le_total, text_le_trans}

-- An identity of 1 to 256 UTF-16 units.
abbrev pub Fits : String → Type 0
Fits id = (0 < text_length id) × (text_length id ≤ 256)

unfoldable pub AllFit : List String → Type 0
AllFit [] = Unit
AllFit (s ∷ ss) = Fits s × AllFit ss

-- not above any of the list
unfoldable pub IsBelow : String → List String → Type 0
IsBelow s [] = Unit
IsBelow s (t ∷ ts) = (text_le s t ≡ true) × IsBelow s ts

unfoldable pub IsSorted : List String → Type 0
unfolding IsBelow
IsSorted [] = Unit
IsSorted (s ∷ ss) = IsBelow s ss × IsSorted ss

insert_text-AllFit :
    (s : String) (ss : List String) → Fits s → AllFit ss → AllFit (insert_text s ss)
unfolding insert_text AllFit
insert_text-AllFit s [] h k = (h, tt)
insert_text-AllFit s (t ∷ ts) h (k, ks) = elim (Bool-cases (text_le s t)) [
  | inl below ↦ rw below (h, (k, ks))
  | inr above ↦ rw above (k, insert_text-AllFit s ts h ks)
]

pub sort-AllFit : (ss : List String) → AllFit ss → AllFit (sort ss)
unfolding sort AllFit
sort-AllFit [] h = tt
sort-AllFit (s ∷ ss) (h, hs) = insert_text-AllFit s (sort ss) h (sort-AllFit ss hs)

unique_from-AllFit : (seen ss : List String) → AllFit ss → AllFit (unique_from seen ss)
unfolding unique_from AllFit
unique_from-AllFit seen [] h = tt
unique_from-AllFit seen (s ∷ ss) (h, hs) = elim (Bool-cases (one_of seen s)) [
  | inl again ↦ rw again (unique_from-AllFit seen ss hs)
  | inr new ↦ rw new (h, unique_from-AllFit (s ∷ seen) ss hs)
]

pub unique-AllFit : (ss : List String) → AllFit ss → AllFit (unique ss)
unfolding unique
unique-AllFit ss h = unique_from-AllFit [] ss h

length-insert_text : (s : String) (ss : List String) → length (insert_text s ss) ≡ suc (length ss)
unfolding insert_text
length-insert_text s [] = refl
length-insert_text s (t ∷ ts) = ground (arith, length-insert_text s ts)

pub length-sort : (ss : List String) → length (sort ss) ≡ length ss
unfolding sort
length-sort [] = refl
length-sort (s ∷ ss) = length-insert_text s (sort ss) ∙ ap (λ (n : ℕ). suc n) (length-sort ss)

length-unique_from : (seen ss : List String) → length (unique_from seen ss) ≤ length ss
unfolding unique_from
length-unique_from seen [] = omega arith
length-unique_from seen (s ∷ ss) =
    ground (arith, length-unique_from seen ss, length-unique_from (s ∷ seen) ss)

pub length-unique : (ss : List String) → length (unique ss) ≤ length ss
unfolding unique
length-unique ss = length-unique_from [] ss

insert_text-IsBelow :
    (t s : String) (ss : List String)
    → text_le t s ≡ true
    → IsBelow t ss
    → IsBelow t (insert_text s ss)
unfolding insert_text IsBelow
insert_text-IsBelow t s [] h k = (h, tt)
insert_text-IsBelow t s (u ∷ us) h (k, ks) = elim (Bool-cases (text_le s u)) [
  | inl below ↦ rw below (h, (k, ks))
  | inr above ↦ rw above (k, insert_text-IsBelow t s us h ks)
]

IsBelow-trans : (s t : String) (ss : List String) → text_le s t ≡ true → IsBelow t ss → IsBelow s ss
unfolding IsBelow
IsBelow-trans s t [] h k = tt
IsBelow-trans s t (u ∷ us) h (k, ks) = (text_le_trans s t u h k, IsBelow-trans s t us h ks)

insert_text-IsSorted : (s : String) (ss : List String) → IsSorted ss → IsSorted (insert_text s ss)
unfolding insert_text IsSorted IsBelow
insert_text-IsSorted s [] h = (tt, tt)
insert_text-IsSorted s (t ∷ ts) (h, hs) = elim (Bool-cases (text_le s t)) [
  | inl below ↦ rw below ((below, IsBelow-trans s t ts below h), (h, hs))
  | inr above ↦
      rw above
        (insert_text-IsBelow t s ts (text_le_total s t above) h, insert_text-IsSorted s ts hs)
]

pub sort-IsSorted : (ss : List String) → IsSorted (sort ss)
unfolding sort IsSorted
sort-IsSorted [] = tt
sort-IsSorted (s ∷ ss) = insert_text-IsSorted s (sort ss) (sort-IsSorted ss)

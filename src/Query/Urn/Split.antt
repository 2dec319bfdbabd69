-- ===== src/Query/Urn/Split.antt =====
-- `text.split(':')`.
use Prim.Native.Char.{Char, code}
use Prim.Native.String.{String, ◌++◌ as text_append}
use mathlib.Core.Bool.{true≢false}
use text.Mathlib.TextLemmas.{nil-append, cons-append}
use smpp_telemetry_platform.Base.{
  ◌≡◌, refl, ap, ◌∙◌, Bool, true, false, List, [], ◌∷◌, ◌==◌, if◌then◌else◌, Bool-cases, inl, inr,
}

abbrev is_colon : Char → Bool
is_colon c = code c == b':'

-- a character in front of the first part
unfoldable pub extend : Char → List String → List String
extend c [] = String.◌∷◌ c "" ∷ []
extend c (part ∷ parts) = String.◌∷◌ c part ∷ parts

unfoldable pub split : String → List String
unfolding extend
split String.[] = "" ∷ []
split (String.◌∷◌ c s) = if is_colon c then "" ∷ split s else extend c (split s)

-- whether a text has a colon
unfoldable pub has_colon : String → Bool
has_colon String.[] = false
has_colon (String.◌∷◌ c s) = if is_colon c then true else has_colon s

pub split-part : (s : String) → has_colon s ≡ false → split s ≡ s ∷ []
unfolding split has_colon extend
split-part String.[] h = refl
split-part (String.◌∷◌ c s) h = elim (Bool-cases (is_colon c)) [
  | inl colon ↦ absurd (true≢false (simp colon at h))
  | inr other ↦ simp (other, split-part s (simp other at h))
]

split-colon : (t : String) → split (text_append ":" t) ≡ "" ∷ split t
unfolding split
split-colon t = ap split (cons-append ":" "" t) ∙ ap (λ u. "" ∷ split u) (nil-append t)

pub split-append :
    (s t : String) → has_colon s ≡ false → split (text_append s (text_append ":" t)) ≡ s ∷ split t
unfolding split has_colon extend
split-append String.[] t h = ap split (nil-append (text_append ":" t)) ∙ split-colon t
split-append (String.◌∷◌ c s) t h = elim (Bool-cases (is_colon c)) [
  | inl colon ↦ absurd (true≢false (simp colon at h))
  | inr other ↦
      ap split (cons-append c s (text_append ":" t))
      ∙ simp (other, split-append s t (simp other at h))
]

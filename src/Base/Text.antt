-- ===== src/Base/Text.antt =====
-- Texts as JavaScript sees them: code points, UTF-16 length, and membership in a constant list.
use Prim.Native.Char.{code}
use Prim.Native.Nat.{ℕ, ◌+◌, ◌-◌, ◌/◌, ◌%◌}
use Prim.Native.String.{String}
use mathlib.Core.Bool.{Bool, true, false, ◌&&◌, ◌||◌}
use mathlib.Core.List.{List, [], ◌∷◌, map}
use text.Mathlib.Text.{◌==◌}
use smpp_telemetry_platform.Base.Lists.{length}
use smpp_telemetry_platform.Base.Tests.{ltb, leb, if◌then◌else◌, ◌==◌ as nat_eq}

abbrev pub codes : String → List ℕ
codes String.[] = []
codes (String.◌∷◌ c s) = code c ∷ codes s

-- The UTF-16 code units of a text; a code point above U+FFFF is a pair of surrogates.
abbrev pub units : List ℕ → List ℕ
units [] = []
units (c ∷ cs) =
    if ltb c 0x10000
    then c ∷ units cs
    else (0xd800 + (c - 0x10000) / 0x400) ∷ (0xdc00 + (c - 0x10000) % 0x400) ∷ units cs

-- `value.length`
abbrev pub text_length : String → ℕ
text_length s = length (units (codes s))

-- `new Set([...]).has(text)` and `[...].includes(text)`
unfoldable pub one_of : List String → String → Bool
one_of [] s = false
one_of (t ∷ ts) s = s == t || one_of ts s

-- The case folding of a regular expression's `i` flag, on the ASCII letters.
unfoldable pub fold_case : ℕ → ℕ
fold_case c = if leb b'A' c && leb c b'Z' then c + 32 else c

pub same_codes : List ℕ → List ℕ → Bool
same_codes [] [] = true
same_codes (a ∷ as') (b ∷ bs) = nat_eq a b && same_codes as' bs
same_codes _ _ = false

-- `/^text$/i`, for a lower-case ASCII text.
unfoldable pub matches_fold : String → String → Bool
unfolding fold_case same_codes
matches_fold t s = same_codes (map fold_case (codes s)) (codes t)

-- the lexicographic order
unfoldable pub units_le : List ℕ → List ℕ → Bool
units_le [] ys = true
units_le (x ∷ xs) [] = false
units_le (x ∷ xs) (y ∷ ys) = ltb x y || (nat_eq x y && units_le xs ys)

-- `a <= b` in the order of `Array.prototype.sort` on texts: by UTF-16 code units
unfoldable pub text_le : String → String → Bool
unfolding units_le
text_le s t = units_le (units (codes s)) (units (codes t))

unfoldable pub insert_text : String → List String → List String
insert_text s [] = s ∷ []
insert_text s (t ∷ ts) = if text_le s t then s ∷ t ∷ ts else t ∷ insert_text s ts

-- `[...texts].sort()`
unfoldable pub sort : List String → List String
unfolding insert_text text_le
sort [] = []
sort (s ∷ ss) = insert_text s (sort ss)

unfoldable pub unique_from : List String → List String → List String
unique_from seen [] = []
unique_from seen (s ∷ ss) =
    if one_of seen s then unique_from seen ss else s ∷ unique_from (s ∷ seen) ss

-- `[...new Set(texts)]`
unfoldable pub unique : List String → List String
unfolding unique_from
unique ss = unique_from [] ss

unfoldable pub same_texts : List String → List String → Bool
same_texts [] [] = true
same_texts (a ∷ xs) (b ∷ ys) = a == b && same_texts xs ys
same_texts _ _ = false

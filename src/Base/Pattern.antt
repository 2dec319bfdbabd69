-- ===== src/Base/Pattern.antt =====
-- Regular expressions without captures, as far as the code uses them: classes, repetitions of a
-- class, a word boundary, and a text that must not follow. A text is the list of its
-- code points, or of its UTF-16 units where a class may match a part of a pair.
use Prim.Native.Nat.{ℕ, zero, suc}
use Prim.Native.String.{String}
use mathlib.Core.Bool.{Bool, true, false, not, ◌&&◌, ◌||◌}
use mathlib.Core.List.{List, [], ◌∷◌, map}
use smpp_telemetry_platform.Base.Tests.{leb, ◌==◌}
use smpp_telemetry_platform.Base.Text.{codes, units, fold_case}

pub data Piece : Type 0 where
  -- one code point of a class
  one : (ℕ → Bool) → Piece
  -- any number of them
  many : (ℕ → Bool) → Piece
  -- one of them or none
  maybe : (ℕ → Bool) → Piece
  -- `\b`
  boundary : Piece
  -- `(?!text)`
  not_ahead : List ℕ → Piece
  -- `$`
  finish : Piece

abbrev pub is_digit_code : ℕ → Bool
is_digit_code c = leb b'0' c && leb c b'9'

abbrev pub is_lower : ℕ → Bool
is_lower c = leb b'a' c && leb c b'z'

-- `\w`, on folded letters too
abbrev pub is_word : ℕ → Bool
is_word c = is_digit_code c || is_lower c || leb b'A' c && leb c b'Z' || c == b'_'

-- `\s`
abbrev pub is_space : ℕ → Bool
is_space c =
    leb 9 c && leb c 13
    || c == 32
    || c == 0xa0
    || c == 0x1680
    || leb 0x2000 c && leb c 0x200a
    || c == 0x2028
    || c == 0x2029
    || c == 0x202f
    || c == 0x205f
    || c == 0x3000
    || c == 0xfeff

-- `.`, which no line terminator matches
abbrev pub is_any : ℕ → Bool
is_any c = not (c == 10 || c == 13 || c == 0x2028 || c == 0x2029)

unfoldable pub starts_with : List ℕ → List ℕ → Bool
starts_with [] cs = true
starts_with (p ∷ ps) [] = false
starts_with (p ∷ ps) (c ∷ cs) = p == c && starts_with ps cs

unfoldable pub word_at : List ℕ → Bool
word_at [] = false
word_at (c ∷ cs) = is_word c

-- whether the pieces match from here on; `before` says whether a word character stands before
unfoldable pub matches_here : List Piece → Bool → List ℕ → Bool
unfolding starts_with word_at
matches_here [] before cs = true
matches_here (one p ∷ ps) before [] = false
matches_here (one p ∷ ps) before (c ∷ cs) = p c && matches_here ps (is_word c) cs
matches_here (many p ∷ ps) before [] = matches_here ps before []
matches_here (many p ∷ ps) before (c ∷ cs) =
    matches_here ps before (c ∷ cs) || p c && matches_here (many p ∷ ps) (is_word c) cs
matches_here (maybe p ∷ ps) before [] = matches_here ps before []
matches_here (maybe p ∷ ps) before (c ∷ cs) =
    matches_here ps before (c ∷ cs) || p c && matches_here ps (is_word c) cs
matches_here (boundary ∷ ps) true cs = not (word_at cs) && matches_here ps true cs
matches_here (boundary ∷ ps) false cs = word_at cs && matches_here ps false cs
matches_here (not_ahead text ∷ ps) before cs =
    not (starts_with text cs) && matches_here ps before cs
matches_here (finish ∷ ps) before [] = matches_here ps before []
matches_here (finish ∷ ps) before (c ∷ cs) = false

-- whether the pieces match somewhere
unfoldable pub search_from : List Piece → Bool → List ℕ → Bool
unfolding matches_here
search_from ps before [] = matches_here ps before []
search_from ps before (c ∷ cs) = matches_here ps before (c ∷ cs) || search_from ps (is_word c) cs

-- `/a|b|…/.test(text)`
unfoldable pub finds : List (List Piece) → List ℕ → Bool
unfolding search_from
finds [] cs = false
finds (ps ∷ qs) cs = search_from ps false cs || finds qs cs

-- `/^…$/.test(text)`, with the `$` among the pieces
unfoldable pub matches : List Piece → String → Bool
unfolding matches_here
matches ps s = matches_here ps false (codes s)

-- the pieces of a literal text
unfoldable pub word : List ℕ → List Piece
word [] = []
word (c ∷ cs) = one (λ d. d == c) ∷ word cs

abbrev pub literal : String → List Piece
literal s = word (codes s)

-- a class so many times
unfoldable pub times : ℕ → (ℕ → Bool) → List Piece
times zero p = []
times (suc n) p = one p ∷ times n p

-- the UTF-16 units of the text with its ASCII letters in lower case, for the `i` flag without `u`
abbrev pub folded : String → List ℕ
folded s = map fold_case (units (codes s))

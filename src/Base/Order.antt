-- ===== src/Base/Order.antt =====
-- The order of texts by UTF-16 code units is total.
use smpp_telemetry_platform.Base.{ℕ, ◌≡◌, refl, true, false, String, List, [], ◌∷◌, arith}
use smpp_telemetry_platform.Base.Text.{units_le, text_le, units, codes}

units_le_total : (xs ys : List ℕ) → units_le xs ys ≡ false → units_le ys xs ≡ true
unfolding units_le
units_le_total [] ys h = cc
units_le_total (x ∷ xs) [] h = refl
units_le_total (x ∷ xs) (y ∷ ys) h = ground (arith, units_le_total xs ys)

units_le_antisymm : (xs ys : List ℕ) → units_le xs ys ≡ true → units_le ys xs ≡ true → xs ≡ ys
unfolding units_le
units_le_antisymm [] [] h k = refl
units_le_antisymm [] (y ∷ ys) h k = cc
units_le_antisymm (x ∷ xs) [] h k = cc
units_le_antisymm (x ∷ xs) (y ∷ ys) h k = ground (arith, units_le_antisymm xs ys)

units_le_trans :
    (xs ys zs : List ℕ) → units_le xs ys ≡ true → units_le ys zs ≡ true → units_le xs zs ≡ true
unfolding units_le
units_le_trans [] ys zs h k = refl
units_le_trans (x ∷ xs) [] zs h k = cc
units_le_trans (x ∷ xs) (y ∷ ys) [] h k = cc
units_le_trans (x ∷ xs) (y ∷ ys) (z ∷ zs) h k = ground (arith, units_le_trans xs ys zs)

pub text_le_total : (s t : String) → text_le s t ≡ false → text_le t s ≡ true
unfolding text_le
text_le_total s t = units_le_total (units (codes s)) (units (codes t))

pub text_le_antisymm :
    (s t : String) → text_le s t ≡ true → text_le t s ≡ true → units (codes s) ≡ units (codes t)
unfolding text_le
text_le_antisymm s t = units_le_antisymm (units (codes s)) (units (codes t))

pub text_le_trans : (s t u : String) → text_le s t ≡ true → text_le t u ≡ true → text_le s u ≡ true
unfolding text_le
text_le_trans s t u = units_le_trans (units (codes s)) (units (codes t)) (units (codes u))

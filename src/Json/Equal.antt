-- ===== src/Json/Equal.antt =====
-- What `===` says of a text.
use smpp_telemetry_platform.Base.{◌≡◌, ap, sym, true, false, String, eq_iff}
use smpp_telemetry_platform.Json.{Value, undefined, null, bool, num, str, arr, obj, strict_eq}

-- A value that is identical to a text is that text.
pub strict_eq-str : (v : Value) (s : String) → strict_eq v (str s) ≡ true → v ≡ str s
unfolding strict_eq
strict_eq-str (str t) s h = ap str ((eq_iff t s).0 h)
strict_eq-str undefined s h = cc
strict_eq-str null s h = cc
strict_eq-str (bool true) s h = cc
strict_eq-str (bool false) s h = cc
strict_eq-str (num n) s h = cc
strict_eq-str (arr a) s h = cc
strict_eq-str (obj o) s h = cc

pub str-strict_eq : (s : String) (v : Value) → strict_eq (str s) v ≡ true → v ≡ str s
unfolding strict_eq
str-strict_eq s (str t) h = ap str (sym ((eq_iff s t).0 h))
str-strict_eq s _ h = cc

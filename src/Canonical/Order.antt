-- ===== src/Canonical/Order.antt =====
-- Canonical JSON does not depend on the order of an object's keys.
use smpp_telemetry_platform.Base.{◌≡◌, ◌≢◌, refl, ◌∙◌, ap, String, List, [], ◌∷◌, arith}
use smpp_telemetry_platform.Base.Order.{text_le_total, text_le_antisymm, text_le_trans}
use smpp_telemetry_platform.Base.Text.{units, codes}
use smpp_telemetry_platform.Json.{Value, Fields, obj, field}
use smpp_telemetry_platform.Canonical.{
  Printer, Member, canonicalize, members, insert_member, sort_members, object_text,
}

-- Two keys that JavaScript tells apart: they differ as sequences of UTF-16 units.
abbrev pub Differ : String → String → Type 0
Differ j k = units (codes j) ≢ units (codes k)

-- `gs` holds the members of `fs` in another order; members that change places have distinct keys.
pub data Reordered : Fields → Fields → Type 0 where
  same : {fs : Fields} → Reordered fs fs
  below :
      {k : String} {v : Value} {fs gs : Fields}
      → Reordered fs gs
      → Reordered (field k v fs) (field k v gs)
  swap :
      {j k : String} {v w : Value} {fs : Fields}
      → Differ j k
      → Reordered (field j v (field k w fs)) (field k w (field j v fs))
  further : {fs gs hs : Fields} → Reordered fs gs → Reordered gs hs → Reordered fs hs

insert_member_comm :
    (m n : Member) (ms : List Member)
    → Differ m.0 n.0
    → insert_member m (insert_member n ms) ≡ insert_member n (insert_member m ms)
unfolding insert_member
insert_member_comm m n [] d = ground (arith, text_le_total m.0 n.0, text_le_antisymm m.0 n.0)
insert_member_comm m n (o ∷ ms) d = ground (
  arith,
  text_le_total m.0 n.0,
  text_le_antisymm m.0 n.0,
  text_le_total m.0 o.0,
  text_le_total n.0 o.0,
  text_le_trans m.0 n.0 o.0,
  text_le_trans n.0 m.0 o.0,
  text_le_trans m.0 o.0 n.0,
  text_le_trans n.0 o.0 m.0,
  insert_member_comm m n ms d,
)

sort_members-Reordered :
    (p : Printer) {fs gs : Fields}
    → Reordered fs gs
    → sort_members (members p fs) ≡ sort_members (members p gs)
unfolding sort_members canonicalize
sort_members-Reordered p same = refl
sort_members-Reordered p (below {k} {v} {fs} {gs} r) =
    ap (insert_member _) (sort_members-Reordered p r)
sort_members-Reordered p (swap {j} {k} {v} {w} {fs} d) =
    insert_member_comm _ _ (sort_members (members p fs)) d
sort_members-Reordered p (further r s) = sort_members-Reordered p r ∙ sort_members-Reordered p s

-- Objects with the same members in another order have one canonical text, or one error.
pub canonicalize-Reordered :
    (p : Printer) (fs gs : Fields)
    → Reordered fs gs
    → canonicalize p (obj fs) ≡ canonicalize p (obj gs)
unfolding canonicalize object_text
canonicalize-Reordered p fs gs r = rw (sort_members-Reordered p r)

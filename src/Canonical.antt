-- ===== src/Canonical.antt =====
-- telemetry-processor/src/packages/canonical/canonical.ts: canonical JSON and the record hash.
-- The runtime's `JSON.stringify` on texts and numbers and the SHA-256 of a text are parameters.
pub mod Hash
pub mod Order
use Prim.Native.String.{◌++◌ as text_append}
use smpp_telemetry_platform.Base.{String, Bool, true, false, List, [], ◌∷◌, if◌then◌else◌}
use smpp_telemetry_platform.Base.Text.{text_le, one_of}
use smpp_telemetry_platform.Base.Result.{Result, ok, err, ◌>>=◌}
use smpp_telemetry_platform.Json.{
  Number, Value, Items, Fields, undefined, null, bool, num, str, arr, obj, nil, cons, end, field,
  is_finite, is_undefined,
}

pub record Printer : Type 0 where
  pub quote : String → String
  pub show : Number → String

-- An object's member: its key, and the text of its value or the error that computing it throws.
abbrev pub Member : Type 0
Member = String × Result String

infixr 65 ◌⋯◌
abbrev ◌⋯◌ : String → String → String
s ⋯ t = text_append s t

insert_member : Member → List Member → List Member
insert_member m [] = m ∷ []
insert_member m (n ∷ ns) = if text_le m.0 n.0 then m ∷ n ∷ ns else n ∷ insert_member m ns

-- `Object.keys(object).sort()`, each key with its member
unfoldable pub sort_members : List Member → List Member
unfolding insert_member
sort_members [] = []
sort_members (m ∷ ms) = insert_member m (sort_members ms)

-- `list.join(',')`
join : List String → String
join [] = ""
join (t ∷ []) = t
join (t ∷ u ∷ us) = t ⋯ "," ⋯ join (u ∷ us)

-- `list.map(f)` where the calls throw in the order of the list
sequence : List (Result String) → Result (List String)
sequence [] = ok []
sequence (r ∷ rs) = do t ← r; ts ← sequence rs; ok (t ∷ ts)

module _ (p : Printer) where
  member_texts : List Member → List (Result String)
  member_texts [] = []
  member_texts ((k, r) ∷ ms) = (r >>= λ t. ok (p.quote k ⋯ ":" ⋯ t)) ∷ member_texts ms

  -- the last line of `canonicalizeJson`, from the members in the object's order
  object_text : List Member → Result String
  unfolding member_texts sequence join
  object_text ms = do ts ← sequence (member_texts (sort_members ms)); ok ("{" ⋯ join ts ⋯ "}")

  number_text : Number → Result String
  number_text n = if is_finite n then ok (p.show n) else err "Canonical JSON numbers must be finite"

  unfoldable mutual
    unfolding object_text number_text sequence join

    pub canonicalize : Value → Result String
    canonicalize undefined = err "Value is outside the JSON data model"
    canonicalize null = ok "null"
    canonicalize (bool true) = ok "true"
    canonicalize (bool false) = ok "false"
    canonicalize (num n) = number_text n
    canonicalize (str s) = ok (p.quote s)
    canonicalize (arr vs) = do ts ← sequence (item_texts vs); ok ("[" ⋯ join ts ⋯ "]")
    canonicalize (obj fs) = object_text (members fs)

    pub item_texts : Items → List (Result String)
    item_texts nil = []
    item_texts (cons v vs) = canonicalize v ∷ item_texts vs

    -- an undefined member has an error of its own
    pub members : Fields → List Member
    members end = []
    members (field k v fs) =
        (
          k,
          (if is_undefined v
              then err "Canonical JSON cannot contain undefined"
              else canonicalize v),
        )
        ∷ members fs

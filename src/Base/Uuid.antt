-- ===== src/Base/Uuid.antt =====
-- `uuidV5` of telemetry-dashboard/query-api/src/current-authority.ts and of
-- telemetry-processor/src/packages/canonical/canonical.ts, from the bytes of a SHA-1 digest.
use Prim.Native.Nat.{ℕ, ◌/◌, ◌%◌, bit_and, bit_or}
use Prim.Native.String.{String, ◌++◌ as text_append}
use mathlib.Core.List.{List, [], ◌∷◌}
use smpp_telemetry_platform.Base.Lists.{get_or, take, drop}

abbrev hex_texts : List String
hex_texts =
    "0" ∷ "1" ∷ "2" ∷ "3" ∷ "4" ∷ "5" ∷ "6" ∷ "7" ∷ "8" ∷ "9" ∷ "a" ∷ "b" ∷ "c" ∷ "d" ∷ "e" ∷ "f"
    ∷ []

-- `bytes.toString("hex")`
unfoldable pub hex : List ℕ → String
hex [] = ""
hex (b ∷ bs) =
    text_append (get_or hex_texts (b / 16 % 16) "")
      (text_append (get_or hex_texts (b % 16) "") (hex bs))

infixr 65 ◌⋯◌
abbrev ◌⋯◌ : String → String → String
s ⋯ t = text_append s t

-- `hash[6] = (hash[6] & 0x0f) | 0x50; hash[8] = (hash[8] & 0x3f) | 0x80`
unfoldable pub marked : List ℕ → List ℕ
marked (a ∷ b ∷ c ∷ d ∷ e ∷ f ∷ six ∷ seven ∷ eight ∷ rest) =
    a
    ∷ b
    ∷ c
    ∷ d
    ∷ e
    ∷ f
    ∷ bit_or (bit_and six 0x0f) 0x50
    ∷ seven
    ∷ bit_or (bit_and eight 0x3f) 0x80
    ∷ rest
marked bytes = bytes

-- `sha1` is the digest of the namespace's bytes followed by the name's UTF-8
unfoldable pub uuid_v5 : (String → List ℕ) → String → String
unfolding hex marked
uuid_v5 sha1 name =
    let bytes = take 16 (marked (sha1 name)) in
    hex (take 4 bytes)
    ⋯ "-"
    ⋯ hex (take 2 (drop 4 bytes))
    ⋯ "-"
    ⋯ hex (take 2 (drop 6 bytes))
    ⋯ "-"
    ⋯ hex (take 2 (drop 8 bytes))
    ⋯ "-"
    ⋯ hex (take 6 (drop 10 bytes))

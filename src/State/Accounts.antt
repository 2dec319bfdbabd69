-- ===== src/State/Accounts.antt =====
-- The usage table counts what the key-value table holds.
pub mod Rows
pub mod Kept
use smpp_telemetry_platform.Base.{ℕ, suc, ◌+◌, ◌≡◌, String, List, [], ◌∷◌, str_eq, if◌then◌else◌}
use smpp_telemetry_platform.State.{Entry, Usage}
use smpp_telemetry_platform.State.Table.{usage_of}

-- the bytes of a namespace's values
unfoldable pub total : (String → ℕ) → String → List Entry → ℕ
total size ns [] = 0
total size ns (e ∷ es) =
    if str_eq e.namespace ns then size e.text + total size ns es else total size ns es

-- its number of rows
unfoldable pub rows : String → List Entry → ℕ
rows ns [] = 0
rows ns (e ∷ es) = if str_eq e.namespace ns then suc (rows ns es) else rows ns es

pub record IsExact (size : String → ℕ) (kv : List Entry) (usage : List Usage) : Type 0 where
  pub counted : (ns : String) → usage_of usage ns ≡ (total size ns kv, rows ns kv)

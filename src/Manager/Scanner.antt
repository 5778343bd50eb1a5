-- ===== src/Manager/Scanner.antt =====
-- internal/service/device_manager.go: a scanner's bursts of one barcode are published once
-- (scannerShouldPublish, scannerDedupeWindow).
pub mod Burst
use quantix_cnnector_go.Prelude.{
  ℕ, ◌+◌, ◌*◌, ◌≤◌, ◌≡◌, refl, Bool, true, false, ◌&&◌, Option, none, some, List, [], ◌∷◌, ltb, ◌⊎◌,
  inl, inr, Bool-cases, arith, if◌then◌else◌,
}
use quantix_cnnector_go.Prelude.Int.{ℤ, pos, negsuc, ltb_ℤ, pos_part, ◌≤ℤ◌}
use quantix_cnnector_go.Prelude.Text.{Bytes, codes, eq_bytes, eq_bytes_iff, trim_space}
use quantix_cnnector_go.Value.{Value, bool, int, Fields, Libs, value_or}
use quantix_cnnector_go.Value.Maps.{get, set}
use quantix_cnnector_go.Value.Sprint.{sprint}
use quantix_cnnector_go.Manager.Units.{to_int}

-- lastScanCode and lastScanAt; `none` is the zero time.
pub record Scan : Type 0 where
  pub last_code : Bytes
  pub last_at : Option ℕ

abbrev pub clamp_window : ℤ → ℤ
clamp_window v = if ltb_ℤ v (pos 300) then pos 300 else if ltb_ℤ (pos 800) v then pos 800 else v

-- now.Sub(lastScanAt) < window, with a last scan
abbrev pub is_recent : Option ℕ → ℕ → ℕ → Bool
is_recent none now window = false
is_recent (some t) now window = ltb now (t + window)

abbrev pub nanos : ℤ → ℕ
nanos ms = pos_part ms * 1000000

abbrev pub key : Bytes
key = codes "dedupe_window_ms"

abbrev pub told : Fields → Bool → ℤ → Fields
told payload deduped window = set (set payload (codes "deduped") (bool deduped)) key (int window)

module _ (lib : Libs) where
  -- Milliseconds, from the connection's parameters or else the variables of the template.
  unfoldable pub scanner_dedupe_window : Fields → Fields → ℤ
  scanner_dedupe_window params vars =
      clamp_window (to_int lib (value_or (get params key) (get vars key)) (pos 500))

  unfoldable pub barcode : Fields → Bytes
  barcode payload = trim_space (sprint lib (get payload (codes "barcode")))

  -- Whether to publish, with the state and the payload behind it.
  unfoldable pub scanner_should_publish : ℤ → ℕ → Scan → Fields → Bool × Scan × Fields
  scanner_should_publish window now s payload =
      let code = barcode payload in
      if eq_bytes code []
      then (true, s, set payload (codes "deduped") (bool false))
      else if eq_bytes code s.last_code && is_recent s.last_at now (nanos window)
      then (false, s, told payload true window)
      else (true, record { last_code = code; last_at = some now }, told payload false window)

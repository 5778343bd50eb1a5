-- ===== src/Manager/Scanner/Burst.antt =====
-- Which scans of a burst are published (scannerShouldPublish, scannerDedupeWindow).
use quantix_cnnector_go.Prelude.{
  ℕ, ◌+◌, ◌≤◌, ◌≡◌, false, ◌&&◌, not, none, some, List, [], ◌∷◌, ◌⊎◌, inl, inr, Bool-cases,
  Option-cases, arith, if◌then◌else◌,
}
use quantix_cnnector_go.Prelude.Int.{ℤ, pos, ◌≤ℤ◌}
use quantix_cnnector_go.Prelude.Text.{Bytes, eq_bytes}
use quantix_cnnector_go.Value.{Fields, Libs, value_or}
use quantix_cnnector_go.Value.Maps.{get}
use quantix_cnnector_go.Manager.Units.{to_int}
use quantix_cnnector_go.Manager.Scanner.{
  key, Scan, clamp_window, nanos, is_recent, scanner_dedupe_window, barcode, scanner_should_publish,
}

clamp_window_bounds : (v : ℤ) → (pos 300 ≤ℤ clamp_window v) × (clamp_window v ≤ℤ pos 800)
clamp_window_bounds v = (ground arith, ground arith)

-- The dedupe window lies between 300 and 800 milliseconds, whatever the device's settings say.
pub scanner_dedupe_window_bounds :
    (lib : Libs) (params vars : Fields)
    → (pos 300 ≤ℤ scanner_dedupe_window lib params vars)
      × (scanner_dedupe_window lib params vars ≤ℤ pos 800)
unfolding scanner_dedupe_window
scanner_dedupe_window_bounds lib params vars =
    clamp_window_bounds (to_int lib (value_or (get params key) (get vars key)) (pos 500))

-- Since a scan of this barcode was published, the window has passed.
abbrev pub Apart : ℕ → Scan → Bytes → ℕ → Type 0
Apart window s code now = elim s.last_at [
  | none ↦ Unit {0}
  | some t ↦ (eq_bytes code s.last_code ≡ false) ⊎ (t + window ≤ now)
]

-- Each entry is the barcode and the time of a scan that was published.
abbrev pub Spaced : ℕ → Scan → List (Bytes × ℕ) → Type 0
Spaced window s [] = Unit {0}
Spaced window s ((code, now) ∷ rest) =
    Apart window s code now × Spaced window (record { last_code = code; last_at = some now }) rest

module _ (lib : Libs) (window : ℤ) where
  -- The barcodes that a device publishes, for the payloads that it reads and their times.
  pub scan_all : Scan → List (ℕ × Fields) → List (Bytes × ℕ)
  scan_all s [] = []
  scan_all s ((now, payload) ∷ rest) =
      let (publishes, s', _) = scanner_should_publish lib window now s payload in
      let later = scan_all s' rest in
      if publishes && not (eq_bytes (barcode lib payload) [])
      then (barcode lib payload, now) ∷ later
      else later

  Apart-fresh :
      (s : Scan) (code : Bytes) (now : ℕ)
      → (eq_bytes code s.last_code && is_recent s.last_at now (nanos window)) ≡ false
      → Apart (nanos window) s code now
  Apart-fresh s code now h = elim (Option-cases s.last_at) [
    | inl e ↦ rw e tt
    | inr (t, e) ↦ rw e (elim (Bool-cases (eq_bytes code s.last_code)) [
      | inr other ↦ inl other
      | inl same ↦
          let late : is_recent s.last_at now (nanos window) ≡ false = ground (arith, h, same) in
          let late' : is_recent (some t) now (nanos window) ≡ false = rw e at late in
          inr (ground arith)
    ])
  ]

  -- Of the scans that a device reads, two that are published one after the other with the same barcode
  -- are at least the dedupe window apart, and so is the first from the last one published before.
  pub scan_all-Spaced :
      (s : Scan) (scans : List (ℕ × Fields)) → Spaced (nanos window) s (scan_all s scans)
  unfolding scan_all scanner_should_publish
  scan_all-Spaced s [] = tt
  scan_all-Spaced s ((now, payload) ∷ rest) =
      let code = barcode lib payload in
      elim (Bool-cases (eq_bytes code [])) [
        | inl empty ↦ rw (empty, scan_all) (scan_all-Spaced s rest)
        | inr full ↦
            elim (Bool-cases
              (eq_bytes code s.last_code && is_recent s.last_at now (nanos window))) [
                | inl repeated ↦ rw (full, repeated, scan_all) (scan_all-Spaced s rest)
                | inr fresh ↦
                    rw (full, fresh, scan_all)
                      (
                        Apart-fresh s code now fresh,
                        scan_all-Spaced (record { last_code = code; last_at = some now }) rest,
                      )
              ]
      ]

-- ===== src/Manager/Units.antt =====
-- internal/service/device_manager.go: categories, units and weights of what a device reports
-- (normalizeCategory, normalizeUnit, recoverWeightUnit, toFloat and the like).
pub mod Reading
use quantix_cnnector_go.Prelude.{
  ℕ, Bool, true, false, ◌&&◌, ◌||◌, not, Option, none, some, [], ◌∷◌, ◌++◌, leb, ◌==◌,
  if◌then◌else◌,
}
use quantix_cnnector_go.Prelude.Int.{ℤ}
use quantix_cnnector_go.Prelude.Text.{
  Bytes, codes, eq_bytes, trim_space, trim_left, trim_right, to_lower, contains, contains_any,
  replace_all, is_space,
}
use quantix_cnnector_go.Value.{
  Value, null, int, int64, float32, float64, string, bytes, object, Fields, end, field, Float, Libs,
  is_zero_float, Items, nil, cons, value_or, as_object,
}
use quantix_cnnector_go.Value.Maps.{get}
use quantix_cnnector_go.Value.Sprint.{sprint}

-- The categories that the switch of normalizeCategory lists.
abbrev pub is_category : Bytes → Bool
is_category s =
    eq_bytes s (codes "printer_tsc")
    || eq_bytes s (codes "scanner")
    || eq_bytes s (codes "serial_board")
    || eq_bytes s (codes "weight")

unfoldable pub normalize_category : Bytes → Bytes
normalize_category v =
    let s = to_lower (trim_space v) in if is_category s then s else codes "weight"

unfoldable pub event_type_for_category : Bytes → Bytes
event_type_for_category category =
    if eq_bytes category (codes "printer_tsc")
    then codes "print_event"
    else if eq_bytes category (codes "scanner")
    then codes "scan_event"
    else if eq_bytes category (codes "serial_board")
    then codes "board_event"
    else codes "weight_update"

-- [A-Za-z:]
unfoldable pub unit_byte : ℕ → Bool
unit_byte c = (leb b'A' c && leb c b'Z') || (leb b'a' c && leb c b'z') || c == b':'

-- [0-9]
unfoldable pub digit_byte : ℕ → Bool
digit_byte c = leb b'0' c && leb c b'9'

-- The longest prefix whose bytes pass the test, and the rest: a greedy class of a regular expression.
unfoldable pub span : (ℕ → Bool) → Bytes → Bytes × Bytes
span p [] = ([], [])
span p (c ∷ cs) = let (run, rest) = span p cs in if p c then (c ∷ run, rest) else ([], c ∷ cs)

-- The run that ends here, if there is one, else the last one before it.
abbrev latest : Bytes → Option Bytes → Option Bytes
latest [] found = found
latest (c ∷ cs) found = some (c ∷ cs)

-- The last run of unit bytes, none if there is no such byte: the last match of `([A-Za-z:]+)`.
-- `run` is the run that ends here.
unfoldable pub last_word : Bytes → Option Bytes → Bytes → Option Bytes
unfolding unit_byte
last_word run found [] = latest run found
last_word run found (c ∷ cs) =
    let grow = last_word (run ++ c ∷ []) found cs in
    let stop = last_word [] (latest run found) cs in if unit_byte c then grow else stop

abbrev digits : Bytes
digits = codes "0123456789"

-- strings.Trim(s, "?")
abbrev trim_marks : Bytes → Bytes
trim_marks s = trim_right (λ c. c == b'?') (trim_left (λ c. c == b'?') s)

abbrev or_self : Option Bytes → Bytes → Bytes
or_self none s = s
or_self (some w) s = w

unfoldable pub normalize_unit : Bytes → Bytes
unfolding last_word
normalize_unit v =
    let s = trim_space v in
    let t = trim_space (replace_all (trim_space (trim_marks s)) (codes "NET") []) in
    if eq_bytes s []
    then codes "kg"
    else if contains_any digits t || contains (codes " ") t
    then or_self (last_word [] none t) t
    else t

-- `(?:\.[0-9]+)?`
abbrev fraction : Bytes → Bytes × Bytes
fraction [] = ([], [])
fraction (c ∷ cs) =
    let (ds, rest) = span digit_byte cs in
    if c == b'.' && not (eq_bytes ds []) then (c ∷ ds, rest) else ([], c ∷ cs)

-- `[0-9]+(?:\.[0-9]+)?` at the start of a text: the match and the rest.
unfoldable pub unsigned_at : Bytes → Option (Bytes × Bytes)
unfolding span digit_byte
unsigned_at s =
    let (ds, rest) = span digit_byte s in
    let (frac, rest') = fraction rest in if eq_bytes ds [] then none else some (ds ++ frac, rest')

-- `[-+]?` before it
unfoldable pub number_at : Bytes → Option (Bytes × Bytes)
unfolding unsigned_at
number_at [] = none
number_at (c ∷ cs) =
    if c == b'-' || c == b'+'
    then elim (unsigned_at cs) [ none ↦ none | some (n, rest) ↦ some (c ∷ n, rest) ]
    else unsigned_at (c ∷ cs)

-- \s of a regular expression
abbrev pub regexp_space : ℕ → Bool
regexp_space c = is_space c && not (c == 11)

-- FindStringSubmatch of `([-+]?[0-9]+(?:\.[0-9]+)?)\s*([A-Za-z:]+)?`: the number and the unit of the
-- leftmost match; a unit that is missing is empty.
unfoldable pub find_reading : Bytes → Option (Bytes × Bytes)
unfolding number_at span unit_byte
find_reading [] = none
find_reading (c ∷ cs) = elim (number_at (c ∷ cs)) [
  | none ↦ find_reading cs
  | some (n, rest) ↦ some (n, (span unit_byte (span regexp_space rest).1).0)
]

-- All of the output but weight and unit.
unfoldable pub build_runtime_payload : Fields → Fields
build_runtime_payload end = end
build_runtime_payload (field k v m) =
    let rest = build_runtime_payload m in
    if eq_bytes k (codes "weight") || eq_bytes k (codes "unit") then rest else field k v rest

module _ (lib : Libs) where
  unfoldable pub raw_payload_text : Value → Bytes
  raw_payload_text null = []
  raw_payload_text (string t) = t
  raw_payload_text (bytes t) = t
  raw_payload_text v = sprint lib v

  unfoldable pub to_float : Value → Float
  to_float (float64 f) = f
  to_float (float32 f) = lib.widen f
  to_float (int n) = lib.float_of_int n
  to_float (int64 n) = lib.float_of_int n
  to_float (string t) = lib.scan_float (trim_space t)
  to_float v = 0

  unfoldable pub to_float_ptr : Value → Option Float
  to_float_ptr null = none
  to_float_ptr v = some (to_float v)

  abbrev or_fallback : Option ℤ → ℤ → ℤ
  or_fallback none fallback = fallback
  or_fallback (some n) fallback = n

  unfoldable pub to_int : Value → ℤ → ℤ
  to_int (int n) fallback = n
  to_int (int64 n) fallback = n
  to_int (float64 f) fallback = lib.int_of_float f
  to_int (string t) fallback = or_fallback (lib.scan_int (trim_space t)) fallback
  to_int v fallback = fallback

  -- weight == nil || (*weight == 0 && parsed != 0) || strings.ContainsAny(unit, "0123456789")
  abbrev replaces : Option Float → Float → Bytes → Bool
  replaces none parsed unit = true
  replaces (some w) parsed unit =
      (is_zero_float w && not (is_zero_float parsed)) || contains_any digits unit

  unfoldable pub recover_weight_unit : Fields → Option Float → Bytes → Option Float × Bytes
  unfolding raw_payload_text find_reading
  recover_weight_unit output weight unit =
      let raw = raw_payload_text (get output (codes "raw_payload")) in
      let kept : Option Float × Bytes = (weight, normalize_unit unit) in
      if eq_bytes (trim_space raw) [] then kept else elim (find_reading raw) [
        | none ↦ kept
        | some (n, u) ↦ elim (lib.parse_float (trim_space n)) [
          | none ↦ kept
          | some parsed ↦ (
            if replaces weight parsed unit then some parsed else weight,
            normalize_unit (if eq_bytes (trim_space u) [] then unit else u),
          )
        ]
      ]

  unfoldable pub has_poll_steps : Items → Bool
  has_poll_steps nil = false
  has_poll_steps (cons x rest) = elim (as_object x) [
    | none ↦ has_poll_steps rest
    | some step ↦
        eq_bytes (sprint lib (value_or (get step (codes "trigger")) (string (codes "poll"))))
          (codes "poll")
        || has_poll_steps rest
  ]

abbrev pub offline_runtime_message : Fields
offline_runtime_message = field (codes "type") (string (codes "weight_update")) (
    field (codes "device_category") (string (codes "weight")) (
      field (codes "status") (string (codes "offline")) (
        field (codes "weight") null (
          field (codes "unit") (string (codes "kg")) (
            field (codes "payload") (object end)
              (field (codes "timestamp") null (field (codes "error") null end)))))))

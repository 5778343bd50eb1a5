-- ===== src/Api/Categories.antt =====
-- internal/api/categories.go: printing, the last scan of a scanner and the status of a board.
pub mod Printed
mod Tests
use quantix_cnnector_go.Prelude.{
  ℕ, Bool, true, false, ◌&&◌, ◌||◌, not, Option, none, some, [], ◌++◌, if◌then◌else◌, ◌⊎◌, inl, inr,
}
use quantix_cnnector_go.Prelude.Text.{Bytes, codes, eq_bytes, trim_space, to_lower, contains}
use quantix_cnnector_go.Value.{
  Value, bool, uint, string, object, Items, nil, cons, Fields, end, field, Libs, Result, ok, err,
  panic, Error, value_or, as_object, as_items,
}
use quantix_cnnector_go.Value.Maps.{get}
use quantix_cnnector_go.Config.Mappings.{is_empty}
use quantix_cnnector_go.Store.{Device}
use quantix_cnnector_go.Api.{Response, detail, answer}
use quantix_cnnector_go.Api.Devices.{Devices}
use quantix_cnnector_go.Api.Trial.{to_str}

pub record PrintRequest : Type 0 where
  pub step_id : Option Bytes
  pub params : Fields

unfoldable pub print_error : Error → Response
print_error e =
    if contains (codes "not manual") (to_lower e.text)
    then detail 403 e.text
    else if contains (codes "not found") (to_lower e.text)
    then detail 404 e.text
    else detail 400 e.text

abbrev pub mismatch : Bytes → Device → Response
mismatch expected d = detail 400 (
    codes "Device category mismatch: expected="
    ++ expected
    ++ codes ", actual="
    ++ d.device_category)

unfoldable pub has_category : Device → Bytes → Bool
has_category d category = eq_bytes (trim_space d.device_category) category

module _ (lib : Libs) where
  -- Whether a step is triggered by hand and sends.
  abbrev pub is_manual_send : Fields → Bool
  is_manual_send step =
      let action = to_str lib (get step (codes "action")) in
      eq_bytes (to_str lib (value_or (get step (codes "trigger")) (string (codes "poll"))))
        (codes "manual")
      && (eq_bytes action (codes "serial.send") || eq_bytes action (codes "tcp.send"))

  abbrev pub id_of : Fields → Bytes
  id_of step = trim_space (to_str lib (get step (codes "id")))

  abbrev chosen : Option Fields → Bytes → Bytes
  chosen none later = later
  chosen (some step) later =
      if is_manual_send step && not (is_empty (id_of step)) then id_of step else later

  -- An entry that is no object is passed over.
  unfoldable pub printer_step_in : Items → Bytes
  printer_step_in nil = []
  printer_step_in (cons v steps) = let later = printer_step_in steps in chosen (as_object v) later

  abbrev or_nil : Option Items → Items
  or_nil none = nil
  or_nil (some xs) = xs

  -- findPrinterManualStep, with the template of the database.
  unfoldable pub find_printer_manual_step : Option Fields → Bytes
  unfolding printer_step_in
  find_printer_manual_step none = []
  find_printer_manual_step (some template) =
      printer_step_in (or_nil (as_items (get template (codes "steps"))))

  module _ {S M : Type 0} (manager : Devices S M) (template_of : ℕ → Option Fields) where
    abbrev named : Option Bytes → Bytes
    named none = []
    named (some id) = trim_space id

    -- The step to print with: that of the request, or else one of the template.
    abbrev pub print_step : Device → PrintRequest → Bytes
    print_step d req =
        let given = named req.step_id in
        let own = find_printer_manual_step (template_of d.protocol_template_id) in
        if is_empty given then own else given

    abbrev pub printed : Device → Bytes → Result Fields × M → Result Response × M
    printed d step_id (ok result, m) = (
      ok (
          answer (
            field (codes "ok") (bool true) (
              field (codes "device_id") (uint d.id) (
                field (codes "device_code") (string d.device_code) (
                  field (codes "step_id") (string step_id)
                    (field (codes "result") (object result) end)))))),
      m,
    )
    printed d step_id (err e, m) = (ok (print_error e), m)
    printed d step_id (panic, m) = (panic, m)

    -- printerPrint on the row that was found; a body that does not bind is an empty request.
    unfoldable pub printer_print : M → Response ⊎ Device → PrintRequest → Result Response × M
    unfolding print_error has_category find_printer_manual_step
    printer_print m (inl r) req = (ok r, m)
    printer_print m (inr d) req =
        let step_id = print_step d req in
        if not (has_category d (codes "printer_tsc"))
        then (ok (mismatch (codes "printer_tsc") d), m)
        else if not d.enabled
        then (ok (detail 400 (codes "Device is disabled")), m)
        else if is_empty step_id
        then (ok (detail 400 (codes "No printable manual step found in template")), m)
        else printed d step_id (manager.execute m d.id step_id req.params)

    abbrev or_end : Option Fields → Fields
    or_end none = end
    or_end (some fs) = fs

    -- The state of a device that is known to the manager, with what the payload adds.
    abbrev pub state_of : M → Device → (Fields → Fields) → Response
    state_of m d more =
        let runtime = manager.snapshot m d.id in
        let payload = or_end (as_object (get runtime (codes "payload"))) in
        answer (
          field (codes "ok") (bool true) (
            field (codes "device_id") (uint d.id) (
              field (codes "device_code") (string d.device_code) (
                field (codes "status") (get runtime (codes "status")) (
                  field (codes "timestamp") (get runtime (codes "timestamp"))
                    (field (codes "error") (get runtime (codes "error")) (more payload)))))))

    unfoldable pub scanner_last : M → Response ⊎ Device → Response
    unfolding has_category
    scanner_last m (inl r) = r
    scanner_last m (inr d) =
        let state = state_of m d (λ (payload : Fields).
          field (codes "barcode") (get payload (codes "barcode")) (
            field (codes "symbology") (get payload (codes "symbology")) (
              field (codes "deduped") (get payload (codes "deduped")) (
                field (codes "dedupe_window_ms") (get payload (codes "dedupe_window_ms")) end)))) in
        if has_category d (codes "scanner") then state else mismatch (codes "scanner") d

    unfoldable pub board_status : M → Response ⊎ Device → Response
    unfolding has_category
    board_status m (inl r) = r
    board_status m (inr d) =
        let state = state_of m d (λ (payload : Fields).
          field (codes "board_value") (get payload (codes "board_value")) (
            field (codes "board_status") (get payload (codes "board_status"))
              (field (codes "alarm") (get payload (codes "alarm")) end))) in
        if has_category d (codes "serial_board") then state else mismatch (codes "serial_board") d

-- ===== src/Api/Categories/Tests.antt =====
-- Runs of the routes by category (internal/api/categories.go) on a printer whose template can send.
use quantix_cnnector_go.Prelude.{ℕ, suc, ◌≡◌, refl, true, none, some, [], inr}
use quantix_cnnector_go.Prelude.Text.{Bytes, codes, eq_bytes, trim_space}
use quantix_cnnector_go.Value.{
  Value, null, string, object, items, nil, cons, Fields, end, field, ok, value_or, as_object,
  as_items,
}
use quantix_cnnector_go.Value.Toy.{toy}
use quantix_cnnector_go.Value.Maps.{get}
use quantix_cnnector_go.Value.Sprint.{sprint}
use quantix_cnnector_go.Store.{Device}
use quantix_cnnector_go.Api.Devices.{Devices}
use quantix_cnnector_go.Api.Categories.{PrintRequest, find_printer_manual_step, printer_print}
use quantix_cnnector_go.Api.Categories.Printed.{Printed, printer_print-Printed}

abbrev step : Bytes → Bytes → Bytes → Value
step id trigger action = object (
    field (codes "id") (string id)
      (field (codes "trigger") (string trigger) (field (codes "action") (string action) end)))

abbrev template : Fields
template =
    field (codes "steps")
      (items (
        cons (step (codes "ask") (codes "poll") (codes "tcp.send"))
          (cons null (cons (step (codes "label") (codes "manual") (codes "tcp.send")) nil))))
      end

finds_label : find_printer_manual_step toy (some template) ≡ codes "label"
unfolding find_printer_manual_step get eq_bytes trim_space value_or as_object as_items sprint
finds_label = refl

-- A manager that counts the steps it ran.
abbrev counter : Devices ℕ ℕ
counter = record {
  reload = λ s m i. m;
  remove = λ m i. m;
  execute = λ m i step_id ps. (ok end, suc m);
  snapshot = λ m i. end;
  snapshot? = λ m i. none;
}

abbrev printer : Device
printer = record {
  id = 5;
  device_code = codes "P-1";
  device_category = codes "printer_tsc";
  name = codes "labels";
  protocol_template_id = 0;
  connection_params = end;
  template_variables = end;
  poll_interval = 1;
  enabled = true;
  created_at = [];
  updated_at = [];
}

abbrev plain : PrintRequest
plain = record { step_id = none; params = end }

printer_print-Printed_example :
    Printed toy counter
      (λ i. some template)
      0
      printer
      plain
      (printer_print toy counter (λ i. some template) 0 (inr printer) plain)
printer_print-Printed_example =
    printer_print-Printed toy counter (λ i. some template) 0 printer plain

-- ===== src/Api/Tests.antt =====
-- Runs of the HTTP API (internal/api) over a database that is a list of rows, and over two drivers.
use quantix_cnnector_go.Prelude.{
  ℕ, zero, suc, ◌≡◌, ◌≢◌, refl, sym, ap, ◌∙◌, subst, Bool, true, false, Bool-cases, Option, none,
  some, List, [], ◌∷◌, ◌++◌, ◌==◌, if◌then◌else◌, inl, inr, get_elem?, get_elem?-set_ne, set, arith,
}
use quantix_cnnector_go.Prelude.Int.{pos}
use quantix_cnnector_go.Prelude.Text.{Bytes, codes, trim_space, to_lower, eq_bytes, eq_bytes_iff}
use quantix_cnnector_go.Value.{null, string, int, object, items, nil, cons, field, end, ok}
use quantix_cnnector_go.Value.Toy.{toy}
use quantix_cnnector_go.Driver.{Driver}
use quantix_cnnector_go.Store.{Device, match_code}
use quantix_cnnector_go.Api.Protocols.{Template, Db, Request, updates, deletes, gets, serve_all}
use quantix_cnnector_go.Api.Protocols.Kept.{IsStore, IsUsed, serve_all-IsUsed}
use quantix_cnnector_go.Api.Trial.{StepTestRequest, test_single_step}
use quantix_cnnector_go.Api.Trial.ReadOnly.{
  Agree, IsWriting, Writing, tcp_send, test_single_step-Agree,
}
use quantix_cnnector_go.Api.Devices.{DeviceCreate, DeviceUpdate}
use quantix_cnnector_go.Api.Devices.Coded.{IsCoded}
use quantix_cnnector_go.Api.Devices.Connection.{
  ConnectionTest, AllTargets, target_of, target_of-AllTargets,
}

abbrev Rows : Type 0
Rows = List (Option Template)

abbrev row_at : ℕ → Option (Option Template) → Option Template
row_at i none = none
row_at i (some none) = none
row_at i (some (some r)) = some (record r { id = i })

abbrev first_row : Rows → ℕ → Option Template
first_row s i = row_at i (get_elem? s i)

-- A row's id is its place; a row that is deleted leaves a gap. A device uses template 0.
abbrev table : Db Rows
table = record {
  find = λ s. inr [];
  first = first_row;
  by_name = λ s name. none;
  devices_using = λ s i. inr (if i == 0 then 1 else 0);
  create = λ s r. (inr r, s ++ some r ∷ []);
  save = λ s r. (inr r, set s r.id (some r));
  delete = λ s i. set s i none;
}

row_at-id : (i : ℕ) (o : Option (Option Template)) (r : Template) → row_at i o ≡ some r → r.id ≡ i
row_at-id i none r h = absurd (distinct h)
  where
    distinct : none ≡ some r → ⊥
    distinct p = cc
row_at-id i (some none) r h = absurd (distinct h)
  where
    distinct : none ≡ some r → ⊥
    distinct p = cc
row_at-id i (some (some t)) r h = sym (ap id_of h)
  where
    id_of : Option Template → ℕ
    id_of none = i
    id_of (some x) = x.id

get_elem?-append :
    (s : Rows) (i : ℕ) (x : Option Template)
    → get_elem? s i ≢ none
    → get_elem? (s ++ x ∷ []) i ≡ get_elem? s i
get_elem?-append [] i x h = absurd (h refl)
get_elem?-append (y ∷ s) zero x h = refl
get_elem?-append (y ∷ s) (suc i) x h = get_elem?-append s i x h

there : (s : Rows) (i : ℕ) (r : Template) → first_row s i ≡ some r → get_elem? s i ≢ none
there s i r h e = distinct (sym (ap (row_at i) e) ∙ h)
  where
    distinct : none ≡ some r → ⊥
    distinct p = cc

table-IsStore : IsStore table
table-IsStore = record {
  names = λ s i r h. row_at-id i (get_elem? s i) r h;
  creates_apart = λ s x i r h. ap (row_at i) (get_elem?-append s i (some x) (there s i r h)) ∙ h;
  saves_apart = λ s x i h. ap (row_at i) (get_elem?-set_ne s (some x) h);
  deletes_apart = λ s j i h. ap (row_at i) (get_elem?-set_ne s none h);
  creates_users = λ s x i. refl;
  saves_users = λ s x i. refl;
  deletes_users = λ s j i h. refl;
}

abbrev scale : Template
scale = record {
  id = 0;
  name = codes "scale";
  description = [];
  protocol_type = codes "tcp";
  template =
      field (codes "steps")
        (items (
          cons
            (object (
              field (codes "id") (string (codes "tare"))
                (field (codes "action") (string (codes "tcp.send")) end)))
            nil))
        end;
  is_system = false;
  created_at = [];
  updated_at = [];
}

abbrev requests : List Request
requests =
    updates (codes "0") (
      inr (record {
        name = some (codes "other");
        description = none;
        protocol_type = none;
        template = none;
      }))
    ∷ deletes (codes "0")
    ∷ gets (codes "1")
    ∷ []

serve_all-IsUsed_example :
    IsUsed table
      (λ s. some 0)
      table-IsStore
      0
      scale
      (serve_all table (λ s. some 0) (some scale ∷ []) requests)
serve_all-IsUsed_example =
    serve_all-IsUsed table (λ s. some 0) table-IsStore 0 scale (some scale ∷ []) requests
      (record { there = refl; used = omega arith })

abbrev sends : Bytes → Bool
sends action = eq_bytes (trim_space (to_lower (trim_space action))) (codes "tcp.send")

sends-IsWriting : (action : Bytes) → ¬ (IsWriting (trim_space action)) → sends action ≡ false
sends-IsWriting action h =
    let a : Bytes = trim_space (to_lower (trim_space action)) in
    elim (Bool-cases (eq_bytes a (codes "tcp.send"))) [
      | inl same ↦
          absurd (h (subst Writing (sym ((eq_bytes_iff a (codes "tcp.send")).0 same)) tcp_send))
      | inr other ↦ other
    ]

-- A device that counts what is sent to it, and one that ignores it.
abbrev counts : Driver ℕ
counts = record {
  connect = λ d. (true, d);
  disconnect = λ d. d;
  is_connected = λ d. true;
  execute_action = λ d action ps. if sends action then (ok null, suc d) else (ok null, d);
  last_error = λ d. [];
}

abbrev ignores : Driver ℕ
ignores = record {
  connect = λ d. (true, d);
  disconnect = λ d. d;
  is_connected = λ d. true;
  execute_action = λ d action ps. (ok null, d);
  last_error = λ d. [];
}

counts-Agree : Agree toy counts ignores
counts-Agree = record {
  connects = λ d. refl;
  disconnects = λ d. refl;
  reads = λ d action ps h. rw (sends-IsWriting action h) refl;
}

abbrev tare : StepTestRequest
tare = record {
  template_variables = end;
  step_id = codes "tare";
  step_context = codes "poll";
  allow_write = false;
  test_payload = none;
  previous_steps = end;
}

test_single_step-Agree_example :
    test_single_step toy counts (some 0) (some scale) (inr tare) (inr 0)
    ≡ test_single_step toy ignores (some 0) (some scale) (inr tare) (inr 0)
test_single_step-Agree_example =
    test_single_step-Agree toy counts ignores counts-Agree (some 0) (some scale) tare (inr 0) refl

abbrev kitchen : Device
kitchen = record {
  id = 3;
  device_code = codes "S-1";
  device_category = codes "weight";
  name = codes "kitchen";
  protocol_template_id = 0;
  connection_params = end;
  template_variables = end;
  poll_interval = 1;
  enabled = true;
  created_at = [];
  updated_at = [];
}

abbrev made : DeviceCreate
made = record {
  device_code = codes " s-2 ";
  device_category = [];
  name = codes "hall";
  protocol_template_id = 0;
  connection_params = end;
  template_variables = end;
  poll_interval = 0;
  enabled = none;
}

abbrev change : DeviceUpdate
change = record {
  device_code = some (codes "s_9");
  device_category = some (codes "Scanner");
  name = none;
  protocol_template_id = none;
  connection_params = none;
  template_variables = none;
  poll_interval = none;
  enabled = none;
}

kitchen-IsCoded : IsCoded kitchen
unfolding match_code eq_bytes
kitchen-IsCoded = record { coded = refl; sorted = refl }

abbrev attempt : ConnectionTest
attempt = record {
  connection_params =
      field (codes "host") (string (codes "10.0.0.2")) (field (codes "port") (int (pos 502)) end);
  timeout_ms = pos 99999;
}

target_of-AllTargets_example : AllTargets (target_of toy (codes "modbus_tcp") attempt)
target_of-AllTargets_example = target_of-AllTargets toy (codes "modbus_tcp") attempt

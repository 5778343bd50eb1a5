-- ===== src/Api/Categories/Printed.antt =====
-- Which step a print runs (internal/api/categories.go: printerPrint, findPrinterManualStep).
use quantix_cnnector_go.Prelude.{
  ℕ, ◌≡◌, refl, sym, Bool, true, false, ◌&&◌, not, Option, none, some, if◌then◌else◌, inr,
}
use quantix_cnnector_go.Prelude.Text.{Bytes, codes, trim_space}
use quantix_cnnector_go.Value.{
  Value, Items, nil, cons, Fields, Libs, Result, ok, as_object, as_items,
}
use quantix_cnnector_go.Value.Maps.{get}
use quantix_cnnector_go.Config.Mappings.{is_empty}
use quantix_cnnector_go.Store.{Device}
use quantix_cnnector_go.Api.{Response, detail}
use quantix_cnnector_go.Api.Devices.{Devices}
use quantix_cnnector_go.Api.Categories.{
  PrintRequest, has_category, is_manual_send, id_of, printer_step_in, find_printer_manual_step,
  print_step, printed, printer_print, chosen, or_nil, named,
}

module _ (lib : Libs) where
  -- A step of these entries that is triggered by hand and sends has this id.
  pub data Sends (id : Bytes) : Items → Type 0 where
    here :
        {v : Value} {steps : Items} (step : Fields)
        → as_object v ≡ some step
        → is_manual_send lib step ≡ true
        → id_of lib step ≡ id
        → Sends id (cons v steps)
    there : {v : Value} {steps : Items} → Sends id steps → Sends id (cons v steps)

  both : (a b : Bool) → a && b ≡ true → a ≡ true
  both true b h = refl
  both false b h = h

  pick :
      (steps : Items) (b : Bool) (x y : Bytes)
      → (b ≡ true → Sends x steps)
      → (is_empty y ≡ false → Sends y steps)
      → is_empty (if b then x else y) ≡ false
      → Sends (if b then x else y) steps
  pick steps true x y h k q = h refl
  pick steps false x y h k q = k q

  chosen-Sends :
      (v : Value) (steps : Items) (o : Option Fields) (later : Bytes)
      → as_object v ≡ o
      → (is_empty later ≡ false → Sends later steps)
      → is_empty (chosen lib o later) ≡ false
      → Sends (chosen lib o later) (cons v steps)
  chosen-Sends v steps none later e h q = there (h q)
  chosen-Sends v steps (some step) later e h q =
      pick (cons v steps) (is_manual_send lib step && not (is_empty (id_of lib step)))
        (id_of lib step) later (λ p. here step e (both _ _ p) refl) (λ p. there (h p)) q

  printer_step_in-Sends :
      (steps : Items)
      → is_empty (printer_step_in lib steps) ≡ false
      → Sends (printer_step_in lib steps) steps
  unfolding printer_step_in
  printer_step_in-Sends nil q = cc
  printer_step_in-Sends (cons v steps) q =
      chosen-Sends v steps (as_object v) (printer_step_in lib steps) refl
        (printer_step_in-Sends steps) q

  abbrev pub steps_of : Option Fields → Items
  steps_of none = nil
  steps_of (some template) = or_nil lib (as_items (get template (codes "steps")))

  find_printer_manual_step-Sends :
      (template : Option Fields)
      → is_empty (find_printer_manual_step lib template) ≡ false
      → Sends (find_printer_manual_step lib template) (steps_of template)
  unfolding find_printer_manual_step
  find_printer_manual_step-Sends none q = cc
  find_printer_manual_step-Sends (some template) q =
      printer_step_in-Sends (steps_of (some template)) q

  module _ {S M : Type 0} (manager : Devices S M) (template_of : ℕ → Option Fields) (m : M)
      (d : Device) (req : PrintRequest) where
    -- The request names the step, or it is one of the template that is triggered by hand and sends.
    pub data IsAllowed (id : Bytes) : Type 0 where
      asked : {raw : Bytes} → req.step_id ≡ some raw → trim_space raw ≡ id → IsAllowed id
      offered : Sends id (steps_of (template_of d.protocol_template_id)) → IsAllowed id

    -- A request is refused, or it runs one step.
    pub data Printed : Result Response × M → Type 0 where
      refuses : (text : Bytes) → Printed (ok (detail 400 text), m)
      runs :
          (id : Bytes)
          → has_category d (codes "printer_tsc") ≡ true
          → d.enabled ≡ true
          → is_empty id ≡ false
          → IsAllowed id
          → Printed (printed lib manager template_of d id (manager.execute m d.id id req.params))

    named-IsAllowed :
        (given : Option Bytes)
        → req.step_id ≡ given
        → is_empty (named lib manager template_of given) ≡ false
        → IsAllowed (named lib manager template_of given)
    named-IsAllowed none e q = cc
    named-IsAllowed (some raw) e q = asked e refl

    given_or-IsAllowed :
        (b : Bool) (x y : Bytes)
        → (b ≡ false → IsAllowed x)
        → (is_empty y ≡ false → IsAllowed y)
        → is_empty (if b then y else x) ≡ false
        → IsAllowed (if b then y else x)
    given_or-IsAllowed true x y h k q = k q
    given_or-IsAllowed false x y h k q = h refl

    print_step-IsAllowed :
        is_empty (print_step lib manager template_of d req) ≡ false
        → IsAllowed (print_step lib manager template_of d req)
    print_step-IsAllowed q =
        given_or-IsAllowed (is_empty (named lib manager template_of req.step_id)) _ _
          (λ p. named-IsAllowed req.step_id refl p)
          (λ p. offered (find_printer_manual_step-Sends (template_of d.protocol_template_id) p)) q

    guarded :
        (b : Bool) (x y : Result Response × M)
        → Printed x
        → (b ≡ false → Printed y)
        → Printed (if b then x else y)
    guarded true x y h k = h
    guarded false x y h k = k refl

    holds : (b : Bool) → not b ≡ false → b ≡ true
    holds true h = refl
    holds false h = sym h

    -- A print is refused and leaves the manager as it is, or it runs one step of an enabled device of
    -- the printer's category, whose id is not empty and is that of the request, or else that of a
    -- step of the device's template that is triggered by hand and sends.
    pub printer_print-Printed : Printed (printer_print lib manager template_of m (inr d) req)
    unfolding printer_print
    printer_print-Printed = guarded _ _ _ (refuses _) (λ p. guarded _ _ _ (refuses _) (λ q.
        guarded _ _ _ (refuses _) (λ r.
          runs (print_step lib manager template_of d req) (holds _ p) (holds _ q) r
            (print_step-IsAllowed r))))

-- ===== src/Executor/Step.antt =====
-- internal/service/protocol_executor.go: one step (executeStep, runTransform, parseResult,
-- evalExpression). Whether the run's context ends during a delay is the parameter `canceled`.
use quantix_cnnector_go.Prelude.{
  ◌≡◌, if◌then◌else◌, Bool, true, ◌&&◌, ◌||◌, Option, none, some, List, [], ◌++◌, length, get_elem?,
  arith,
}
use quantix_cnnector_go.Prelude.Int.{ℤ, pos, negsuc, ltb_ℤ}
use quantix_cnnector_go.Prelude.Text.{
  Bytes, codes, eq_bytes, has_prefix, contains, to_lower, replace_all,
}
use quantix_cnnector_go.Value.{
  Value, null, int, string, bytes, object, Fields, end, field, Libs, Result, ok, err, panic, ◌>>=◌,
  Error, errorf, value_or, as_object,
}
use quantix_cnnector_go.Value.Maps.{get?, get, set, merge}
use quantix_cnnector_go.Value.Sprint.{sprint}
use quantix_cnnector_go.Driver.{Driver}
use quantix_cnnector_go.Executor.Context.{resolve_value}
use quantix_cnnector_go.Executor.Convert.{
  int_or, transform_input_string, extract_payload, hex_decode, substring,
}
use quantix_cnnector_go.Executor.Struct.{parse_struct_result}

abbrev pub single : Bytes → Value → Fields
single k v = field k v end

abbrev pub context_canceled : Error
context_canceled = errorf (codes "context canceled")

module _ (lib : Libs) where
  -- match[group], or nil where there is no match or no such group
  abbrev group_of : List Bytes → ℤ → Value
  group_of found (pos i) = elim (get_elem? found i) [ none ↦ null | some s ↦ string s ]
  group_of found (negsuc i) = null

  unfoldable pub extract_group : Bytes → Bytes → ℤ → Result Value
  extract_group pattern_text text group = do
    find ← lib.regexp pattern_text
    ok (group_of (find text) group)

  -- start and end of a substring, and the text between them
  unfoldable pub cut : Fields → Bytes → Result Value
  cut params text = do
    s ←
        substring text (int_or lib (get params (codes "start")) (int (pos 0)))
          (int_or lib (get params (codes "end")) (int (pos (length text))))
    ok (string s)

  unfoldable pub run_transform : Bytes → Fields → Result Value
  unfolding extract_group cut
  run_transform action params =
      let input = transform_input_string lib (value_or (get params (codes "input")) (string [])) in
      if eq_bytes action (codes "transform.base64_decode")
      then (lib.base64 input >>= λ b. ok (bytes b))
      else if eq_bytes action (codes "transform.hex_decode")
      then (hex_decode (replace_all input (codes " ") []) >>= λ b. ok (bytes b))
      else if eq_bytes action (codes "transform.regex_extract")
      then extract_group (sprint lib (get params (codes "pattern"))) input
          (int_or lib (get params (codes "group")) (int (pos 1)))
      else if eq_bytes action (codes "transform.substring")
      then cut params input
      else err (errorf (codes "Unsupported transform action: " ++ action))

  abbrev with_key : Fields → Bytes → Fields → Fields
  with_key m k env = elim (get? m k) [ none ↦ env | some v ↦ set env k v ]

  abbrev with_registers : Value → Fields → Fields
  with_registers (object m) env = with_key m (codes "coils") (with_key m (codes "registers") env)
  with_registers v env = env

  -- The variables of an expression; its functions int, float and str are part of `expr_run`.
  unfoldable pub expression_env : Value → Fields → Fields
  expression_env raw context =
      set
        (with_registers raw (merge (single (codes "steps") (get context (codes "steps"))) context))
        (codes "payload") (string (extract_payload lib raw))

  -- An error at run time that speaks of float or int makes the result nil.
  abbrev mask_conversion : Result Value → Result Value
  mask_conversion (ok v) = ok v
  mask_conversion (err e) =
      if contains (codes "float") (to_lower e.text) || contains (codes "int") (to_lower e.text)
      then ok null
      else err e
  mask_conversion panic = panic

  abbrev unless {ℓ} : {A : Type ℓ} → Option Error → Result A → Result A
  unless none r = r
  unless (some e) r = err e

  unfoldable pub eval_expression : Bytes → Value → Fields → Result Value
  unfolding expression_env
  eval_expression expression raw context =
      let env = expression_env raw context in
      unless (lib.expr_compile expression env) (mask_conversion (lib.expr_run expression env))

  unfoldable pub parse_result : Fields → Value → Fields → Result Value
  unfolding extract_group cut eval_expression
  parse_result config raw context =
      let kind = sprint lib (get config (codes "type")) in
      if eq_bytes kind (codes "expression")
      then eval_expression (sprint lib (get config (codes "expression"))) raw context
      else if eq_bytes kind (codes "regex")
      then extract_group (sprint lib (get config (codes "pattern"))) (extract_payload lib raw)
          (int_or lib (get config (codes "group")) (int (pos 1)))
      else if eq_bytes kind (codes "substring")
      then cut config (extract_payload lib raw)
      else if eq_bytes kind (codes "struct")
      then (parse_struct_result lib config raw >>= λ m. ok (object m))
      else err (errorf (codes "Unsupported parse type: " ++ kind))

  abbrev or_empty : Option Fields → Fields
  or_empty none = end
  or_empty (some m) = m

  unfoldable pub step_params : Fields → Fields → Fields → Fields
  step_params step context overrides =
      merge
        (or_empty (
          as_object
            (resolve_value lib (value_or (get step (codes "params")) (object end)) context)))
        overrides

  abbrev delayed : Bool → ℤ → Result Value
  delayed canceled ms =
      if canceled && ltb_ℤ (pos 0) ms
      then err context_canceled
      else ok (object (single (codes "delayed_ms") (int ms)))

  module _ {D : Type 0} (drv : Driver D) (canceled : Bool) where
    -- The switch over the action: what the step yields before it is parsed.
    unfoldable pub perform : D → Bytes → Fields → Fields → Bool → Result Value × D
    unfolding run_transform
    perform d action params context skip_driver =
        if eq_bytes action (codes "delay")
        then (delayed canceled (int_or lib (get params (codes "milliseconds")) (int (pos 0))), d)
        else if has_prefix (codes "transform.") action
        then (run_transform action params, d)
        else if skip_driver
        then (ok (object (single (codes "payload") (get context (codes "payload")))), d)
        else drv.execute_action d action params

    abbrev parsed : Fields → Fields → Result Value → Result Value
    parsed step context r = do
      raw ← r
      elim (as_object (get step (codes "parse"))) [
        | none ↦ ok raw
        | some config ↦ parse_result config raw context
      ]

    unfoldable pub execute_step : D → Fields → Fields → Fields → Bool → Result Value × D
    unfolding perform
    execute_step d step context overrides skip_driver =
        let (r, d') =
          perform d (sprint lib (get step (codes "action"))) (step_params step context overrides)
            context skip_driver in
        (parsed step context r, d')

    -- A step that skips the driver leaves it alone, whatever its action.
    pub execute_step-skips :
        (d : D) (step context overrides : Fields)
        → (execute_step d step context overrides true).1 ≡ d
    unfolding execute_step
    execute_step-skips d step context overrides = ground arith

  unfoldable pub render_output : Fields → Fields → Fields
  render_output template context = elim (as_object (get template (codes "output"))) [
    | none ↦ end
    | some m ↦ or_empty (as_object (resolve_value lib (object m) context))
  ]

-- ===== src/Value/Toy.antt =====
-- The parameters of the model made concrete for test runs.
use quantix_cnnector_go.Prelude.{ℕ, ◌+◌, ◌-◌, ◌*◌, none, some, [], ◌∷◌}
use quantix_cnnector_go.Prelude.Int.{pos, pos_part}
use quantix_cnnector_go.Prelude.Text.{Bytes}
use quantix_cnnector_go.Value.{Libs, null, ok, err, errorf}

abbrev digits_value : ℕ → Bytes → ℕ
digits_value n [] = n
digits_value n (c ∷ cs) = digits_value (10 * n + (c - 48)) cs

-- Floats that are whole numbers, and no regular expressions or programs.
abbrev pub toy : Libs
toy = record {
  float_of_int = pos_part;
  int_of_float = pos;
  widen = λ f. f;
  mul = λ a b. a;
  div = λ a b. a;
  parse_float = λ s. some (digits_value 0 s);
  scan_float = λ s. digits_value 0 s;
  show_float = λ f. [];
  show_float32 = λ f. [];
  show_pointer = λ f. [];
  show_time = λ t. [];
  atoi = λ s. none;
  scan_int = λ s. some (pos (digits_value 0 s));
  regexp = λ s. err (errorf []);
  base64 = λ s. ok s;
  expr_compile = λ s m. none;
  expr_run = λ s m. ok null;
}

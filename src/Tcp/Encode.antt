-- ===== src/Tcp/Encode.antt =====
-- internal/driver/util.go: the bytes of a payload (toBytes, decodeEscapes).
use quantix_cnnector_go.Prelude.{
  ℕ, ◌==◌, Bool, true, false, Option, none, some, [], ◌∷◌, if◌then◌else◌, ◌⊎◌, inl, inr,
}
use quantix_cnnector_go.Prelude.Text.{
  Bytes, codes, eq_bytes, trim_space, to_lower, replace_all, hex_decode_string,
}
use quantix_cnnector_go.Value.{Value, string, bytes, Libs, Error}
use quantix_cnnector_go.Value.Sprint.{sprint}

-- The byte that an escape at the start of a text stands for.
abbrev escaped : ℕ → Option ℕ
escaped c =
    if c == b'r' then some 13 else if c == b'n' then some 10 else if c == b't' then some 9 else none

abbrev escape_at : Bytes → Option ℕ
escape_at (c ∷ d ∷ s) = if c == b'\\' then escaped d else none
escape_at s = none

abbrev is_some : Option ℕ → Bool
is_some none = false
is_some (some n) = true

abbrev or_byte : Option ℕ → ℕ → ℕ
or_byte none c = c
or_byte (some n) c = n

-- `skips` says that the next byte belongs to an escape that was read.
unfoldable pub decode_from : Bool → Bytes → Bytes
decode_from skips [] = []
decode_from true (c ∷ s) = decode_from false s
decode_from false (c ∷ s) = let e = escape_at (c ∷ s) in or_byte e c ∷ decode_from (is_some e) s

unfoldable pub decode_escapes : Bytes → Bytes
unfolding decode_from
decode_escapes text = decode_from false text

-- `hex_error` is the error of encoding/hex for a text that it does not read.
abbrev read_hex : (Bytes → Error) → Bytes → Option Bytes → Error ⊎ Bytes
read_hex hex_error clean none = inl (hex_error clean)
read_hex hex_error clean (some b) = inr b

unfoldable pub text_to_bytes : (Bytes → Error) → Bytes → Bytes → Error ⊎ Bytes
unfolding decode_escapes
text_to_bytes hex_error text encoding =
    let clean = replace_all text (codes " ") [] in
    let hex = read_hex hex_error clean (hex_decode_string clean) in
    if eq_bytes (to_lower (trim_space encoding)) (codes "hex")
    then hex
    else inr (decode_escapes text)

unfoldable pub to_bytes : Libs → (Bytes → Error) → Value → Bytes → Error ⊎ Bytes
unfolding text_to_bytes
to_bytes lib hex_error (bytes b) encoding = inr b
to_bytes lib hex_error (string s) encoding = text_to_bytes hex_error s encoding
to_bytes lib hex_error v encoding = text_to_bytes hex_error (sprint lib v) encoding

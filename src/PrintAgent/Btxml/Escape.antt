-- ===== src/PrintAgent/Btxml/Escape.antt =====
-- Texts in the script are read back as they were (xmlEscape).
use quantix_cnnector_go.Prelude.{
  ℕ, ◌≡◌, refl, ◌∙◌, ap, Bool, true, ◌||◌, Option, none, some, [], ◌∷◌, ◌++◌, arith, leb, ◌==◌,
  if◌then◌else◌,
}
use quantix_cnnector_go.Prelude.Text.{Bytes, codes, eq_bytes}
use quantix_cnnector_go.PrintAgent.Btxml.{escape_byte, xml_escape}

-- The character that a reference stands for.
abbrev referenced : Bytes → Bytes
referenced name =
    if eq_bytes name (codes "#34")
    then codes "\""
    else if eq_bytes name (codes "#39")
    then codes "'"
    else if eq_bytes name (codes "amp")
    then codes "&"
    else if eq_bytes name (codes "lt")
    then codes "<"
    else if eq_bytes name (codes "gt")
    then codes ">"
    else if eq_bytes name (codes "#x9")
    then 9 ∷ []
    else if eq_bytes name (codes "#xA")
    then 10 ∷ []
    else if eq_bytes name (codes "#xD")
    then 13 ∷ []
    else []

-- One byte of a text of XML: outside of a reference, or after the part t of one.
abbrev step_text : Option Bytes → ℕ → Option Bytes × Bytes
step_text none c = if c == b'&' then (some [], []) else (none, c ∷ [])
step_text (some t) c = if c == b';' then (none, referenced t) else (some (t ++ c ∷ []), [])

-- What a reader of XML makes of a text.
unfoldable pub unescape : Option Bytes → Bytes → Bytes
unescape state [] = []
unescape state (c ∷ s) = (step_text state c).1 ++ unescape (step_text state c).0 s

-- The ASCII characters of XML, and all others.
abbrev pub is_xml_byte : ℕ → Bool
is_xml_byte c = leb 32 c || c == 9 || c == 10 || c == 13

abbrev pub IsXml : Bytes → Type 0
IsXml [] = Unit {0}
IsXml (c ∷ s) = (is_xml_byte c ≡ true) × IsXml s

unescape-escape_byte :
    (c : ℕ) (rest : Bytes)
    → is_xml_byte c ≡ true
    → unescape none (escape_byte c ++ rest) ≡ c ∷ unescape none rest
unfolding unescape escape_byte eq_bytes
unescape-escape_byte c rest h = ground arith

-- A text without control characters that XML does not have is read back from the script as it was.
pub unescape-xml_escape : (s : Bytes) → IsXml s → unescape none (xml_escape s) ≡ s
unfolding xml_escape unescape
unescape-xml_escape [] h = refl
unescape-xml_escape (c ∷ s) h =
    unescape-escape_byte c (xml_escape s) h.0 ∙ ap (◌∷◌ c) (unescape-xml_escape s h.1)

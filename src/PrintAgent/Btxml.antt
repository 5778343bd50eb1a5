-- ===== src/PrintAgent/Btxml.antt =====
-- internal/service/print_agent.go: the script for BarTender (buildBTXML, xmlEscape).
pub mod Tags
pub mod Escape
use quantix_cnnector_go.Prelude.{ℕ, Bool, ◌||◌, ◌&&◌, [], ◌∷◌, ◌++◌, ltb, not, ◌==◌, if◌then◌else◌}
use quantix_cnnector_go.Prelude.Int.{ℤ, pos, leb_ℤ}
use quantix_cnnector_go.Prelude.Text.{Bytes, codes, trim_space, show_int}
use quantix_cnnector_go.Value.{Fields, end, field, Libs}
use quantix_cnnector_go.Value.Sprint.{sprint}
use quantix_cnnector_go.Config.Mappings.{is_empty}

-- xml.EscapeText of a text in UTF-8: a control character that XML does not have becomes U+FFFD.
unfoldable pub escape_byte : ℕ → Bytes
escape_byte c =
    if c == b'"'
    then codes "&#34;"
    else if c == b'\''
    then codes "&#39;"
    else if c == b'&'
    then codes "&amp;"
    else if c == b'<'
    then codes "&lt;"
    else if c == b'>'
    then codes "&gt;"
    else if c == 9
    then codes "&#x9;"
    else if c == 10
    then codes "&#xA;"
    else if c == 13
    then codes "&#xD;"
    else if ltb c 32
    then 239 ∷ 191 ∷ 189 ∷ []
    else c ∷ []

unfoldable pub xml_escape : Bytes → Bytes
unfolding escape_byte
xml_escape [] = []
xml_escape (c ∷ s) = escape_byte c ++ xml_escape s

unfoldable pub positive_copies : ℤ → ℤ
positive_copies copies = if leb_ℤ copies (pos 0) then pos 1 else copies

-- The script is built from its end: each part puts its text before what follows it.
unfoldable pub printer_element : Bytes → Bytes → Bytes
unfolding xml_escape
printer_element printer_name rest =
    if is_empty (trim_space printer_name)
    then rest
    else codes "        <Printer>" ++ (xml_escape printer_name ++ (codes "</Printer>\n" ++ rest))

module _ (lib : Libs) where
  unfoldable pub named_sub_strings : Fields → Bytes → Bytes
  unfolding xml_escape
  named_sub_strings end rest = rest
  named_sub_strings (field key value payload) rest =
      codes "      <NamedSubString Name=\""
      ++ (xml_escape (trim_space key)
          ++ (codes "\">\n        <Value>"
              ++ (xml_escape (sprint lib value)
                  ++ (codes "</Value>\n      </NamedSubString>\n"
                      ++ named_sub_strings payload rest))))

  unfoldable pub build_btxml : Bytes → Bytes → ℤ → Bytes → Fields → Bytes
  unfolding named_sub_strings printer_element positive_copies
  build_btxml template_path printer_name copies job_code payload =
      codes "<?xml version=\"1.0\" encoding=\"utf-8\"?>\n<XMLScript Version=\"2.0\">\n"
      ++ (codes "  <Command Name=\""
          ++ (xml_escape job_code
              ++ (codes "\">\n    <Print>\n      <Format>"
                  ++ (xml_escape template_path
                      ++ (codes "</Format>\n      <PrintSetup>\n"
                          ++ printer_element printer_name (
                              codes "        <IdenticalCopiesOfLabel>"
                              ++ (show_int (positive_copies copies)
                                  ++ (codes "</IdenticalCopiesOfLabel>\n      </PrintSetup>\n"
                                      ++ named_sub_strings payload (
                                          codes
                                            "    </Print>\n  </Command>\n</XMLScript>\n")))))))))

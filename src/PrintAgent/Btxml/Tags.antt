-- ===== src/PrintAgent/Btxml/Tags.antt =====
-- What a reader of the script finds in it: its tags, and the texts between them
-- (buildBTXML, xmlEscape).
use quantix_cnnector_go.Prelude.{
  ℕ, suc, zero, ◌+◌, ◌%◌, ◌/◌, ◌≡◌, refl, sym, ap, ◌∙◌, Bool, true, false, Bool-cases, ◌&&◌, not,
  inl, inr, Option, none, some, List, [], ◌∷◌, ◌++◌, append_assoc, append-nil, arith, ltb, ◌==◌,
  if◌then◌else◌,
}
use quantix_cnnector_go.Prelude.Int.{ℤ, pos, negsuc}
use quantix_cnnector_go.Prelude.Text.{Bytes, codes, trim_space, show_int, decimal, digits_from}
use quantix_cnnector_go.Value.{Fields, end, field, Libs}
use quantix_cnnector_go.Value.Sprint.{sprint}
use quantix_cnnector_go.Config.Mappings.{is_empty}
use quantix_cnnector_go.PrintAgent.Btxml.{
  escape_byte, xml_escape, positive_copies, named_sub_strings, printer_element, build_btxml,
}

-- One byte of a document: outside of a tag, or after the part t of one.
abbrev step_tag : Option Bytes → ℕ → Option Bytes × List Bytes
step_tag none c = (if c == b'<' then some [] else none, [])
step_tag (some t) c = if c == b'>' then (none, t ∷ []) else (some (t ++ c ∷ []), [])

-- The texts between `<` and `>`, in order.
unfoldable pub tags_from : Option Bytes → Bytes → List Bytes
tags_from state [] = []
tags_from state (c ∷ s) = (step_tag state c).1 ++ tags_from (step_tag state c).0 s

abbrev is_plain : ℕ → Bool
is_plain c = not (c == b'<') && not (c == b'>') && not (c == b'"')

-- No angle bracket and no quote.
abbrev pub IsPlain : Bytes → Type 0
IsPlain [] = Unit {0}
IsPlain (c ∷ s) = (is_plain c ≡ true) × IsPlain s

IsPlain-append : (s t : Bytes) → IsPlain s → IsPlain t → IsPlain (s ++ t)
IsPlain-append [] t h k = k
IsPlain-append (c ∷ s) t h k = (h.0, IsPlain-append s t h.1 k)

escape_byte-IsPlain : (c : ℕ) → IsPlain (escape_byte c)
unfolding escape_byte
escape_byte-IsPlain c = ground arith

pub xml_escape-IsPlain : (s : Bytes) → IsPlain (xml_escape s)
unfolding xml_escape
xml_escape-IsPlain [] = tt
xml_escape-IsPlain (c ∷ s) =
    IsPlain-append (escape_byte c) (xml_escape s) (escape_byte-IsPlain c) (xml_escape-IsPlain s)

digits_from-IsPlain : (fuel n : ℕ) (acc : Bytes) → IsPlain acc → IsPlain (digits_from fuel n acc)
unfolding digits_from
digits_from-IsPlain zero n acc h = h
digits_from-IsPlain (suc fuel) n acc h = elim (Bool-cases (ltb n 10)) [
  | inl small ↦ rw small (ground arith, h)
  | inr big ↦ rw big (digits_from-IsPlain fuel (n / 10) ((48 + n % 10) ∷ acc) (ground arith, h))
]

show_int-IsPlain : (n : ℤ) → IsPlain (show_int n)
unfolding show_int decimal
show_int-IsPlain (pos n) = digits_from-IsPlain (suc n) n [] tt
show_int-IsPlain (negsuc n) = (refl, digits_from-IsPlain (suc (suc n)) (suc n) [] tt)

-- A plain text outside of a tag has no tags; inside of one it is a part of it.
tags_from-outside : (s rest : Bytes) → IsPlain s → tags_from none (s ++ rest) ≡ tags_from none rest
unfolding tags_from
tags_from-outside [] rest h = refl
tags_from-outside (c ∷ s) rest h =
    let e : (c == b'<') ≡ false = ground (arith, h.0) in rw e (tags_from-outside s rest h.1)

tags_from-inside :
    (t s rest : Bytes) → IsPlain s → tags_from (some t) (s ++ rest) ≡ tags_from (some (t ++ s)) rest
unfolding tags_from
tags_from-inside t [] rest h = ap (λ x. tags_from (some x) rest) (sym (append-nil t))
tags_from-inside t (c ∷ s) rest h =
    let e : (c == b'>') ≡ false = ground (arith, h.0) in
    rw e (
      tags_from-inside (t ++ c ∷ []) s rest h.1
      ∙ ap (λ x. tags_from (some x) rest) (append_assoc t (c ∷ []) s))

abbrev quoted : Bytes → Bytes → Bytes
quoted before value = before ++ xml_escape value ++ codes "\""

tags_from-quoted :
    (before value rest : Bytes)
    → tags_from (some before) (xml_escape value ++ (codes "\">" ++ rest))
      ≡ quoted before value ∷ tags_from none rest
unfolding tags_from
tags_from-quoted before value rest =
    tags_from-inside before (xml_escape value) (codes "\">" ++ rest) (xml_escape-IsPlain value)

module _ (lib : Libs) where
  abbrev payload_tags : Fields → List Bytes → List Bytes
  payload_tags end more = more
  payload_tags (field key value payload) more =
      quoted (codes "NamedSubString Name=\"") (trim_space key)
      ∷ codes "Value"
      ∷ codes "/Value"
      ∷ codes "/NamedSubString"
      ∷ payload_tags payload more

  abbrev printer_tags : Bytes → List Bytes → List Bytes
  printer_tags printer_name more =
      if is_empty (trim_space printer_name) then more else codes "Printer" ∷ codes "/Printer" ∷ more

  -- The tags that a script is meant to have.
  abbrev pub script_tags : Bytes → Bytes → Fields → List Bytes
  script_tags printer_name job_code payload =
      codes "?xml version=\"1.0\" encoding=\"utf-8\"?"
      ∷ codes "XMLScript Version=\"2.0\""
      ∷ quoted (codes "Command Name=\"") job_code
      ∷ codes "Print"
      ∷ codes "Format"
      ∷ codes "/Format"
      ∷ codes "PrintSetup"
      ∷ printer_tags printer_name (
          codes "IdenticalCopiesOfLabel"
          ∷ codes "/IdenticalCopiesOfLabel"
          ∷ codes "/PrintSetup"
          ∷ payload_tags payload (codes "/Print" ∷ codes "/Command" ∷ codes "/XMLScript" ∷ []))

  named_sub_strings-tags :
      (payload : Fields) (rest : Bytes)
      → tags_from none (named_sub_strings lib payload rest)
        ≡ payload_tags payload (tags_from none rest)
  unfolding named_sub_strings tags_from
  named_sub_strings-tags end rest = refl
  named_sub_strings-tags (field key value payload) rest =
      rw
        (
          tags_from-quoted (codes "NamedSubString Name=\"") (trim_space key) (
              codes "\n        <Value>"
              ++ (xml_escape (sprint lib value)
                  ++ (codes "</Value>\n      </NamedSubString>\n"
                      ++ named_sub_strings lib payload rest))),
          tags_from-outside (xml_escape (sprint lib value))
              (codes "</Value>\n      </NamedSubString>\n" ++ named_sub_strings lib payload rest)
              (xml_escape-IsPlain (sprint lib value)),
          named_sub_strings-tags payload rest,
        )
        refl

  printer_element-tags :
      (printer_name rest : Bytes)
      → tags_from none (printer_element printer_name rest)
        ≡ printer_tags printer_name (tags_from none rest)
  unfolding printer_element tags_from
  printer_element-tags printer_name rest = elim (Bool-cases (is_empty (trim_space printer_name))) [
    | inl e ↦ rw e refl
    | inr e ↦
        rw
          (
            e,
            tags_from-outside (xml_escape printer_name) (codes "</Printer>\n" ++ rest)
                (xml_escape-IsPlain printer_name),
          )
          refl
  ]

  -- Whatever the texts of a job are, its script has exactly the tags that it is meant to have, in
  -- their order, with the job's code and the payload's keys inside of their attributes: no text
  -- opens, closes or removes a tag.
  pub build_btxml-script_tags :
      (template_path printer_name job_code : Bytes) (copies : ℤ) (payload : Fields)
      → tags_from none (build_btxml lib template_path printer_name copies job_code payload)
        ≡ script_tags printer_name job_code payload
  unfolding build_btxml tags_from
  build_btxml-script_tags template_path printer_name job_code copies payload =
      let last : Bytes = codes "    </Print>\n  </Command>\n</XMLScript>\n" in
      let subs : Bytes = named_sub_strings lib payload last in
      let setup : Bytes = codes "</IdenticalCopiesOfLabel>\n      </PrintSetup>\n" ++ subs in
      let labels : Bytes = show_int (positive_copies copies) ++ setup in
      let inner : Bytes =
        printer_element printer_name (codes "        <IdenticalCopiesOfLabel>" ++ labels) in
      rw
        (
          tags_from-quoted (codes "Command Name=\"") job_code (
              codes "\n    <Print>\n      <Format>"
              ++ (xml_escape template_path ++ (codes "</Format>\n      <PrintSetup>\n" ++ inner))),
          tags_from-outside (xml_escape template_path)
              (codes "</Format>\n      <PrintSetup>\n" ++ inner) (xml_escape-IsPlain template_path),
          printer_element-tags printer_name (codes "        <IdenticalCopiesOfLabel>" ++ labels),
          tags_from-outside (show_int (positive_copies copies)) setup
              (show_int-IsPlain (positive_copies copies)),
          named_sub_strings-tags payload last,
        )
        refl

-- ===== src/Runtime/Message.antt =====
-- What a message says (ToMessage).
use quantix_cnnector_go.Prelude.{◌≡◌, Option-cases, inl, inr, arith}
use quantix_cnnector_go.Prelude.Text.{Bytes, eq_bytes_iff}
use quantix_cnnector_go.Value.{Fields, end, field, Libs}
use quantix_cnnector_go.Value.Maps.{get?, set, get?-set, IsMap, get?-Absent, override}
use quantix_cnnector_go.Runtime.{RuntimeState, add_missing, to_message, standard_fields}

add_missing-get? :
    (out m : Fields) (k : Bytes)
    → IsMap m
    → get? (add_missing out m) k ≡ override (get? out k) (get? m k)
unfolding add_missing get?
add_missing-get? out end k h = ground arith
add_missing-get? out (field j v m) k h = elim (Option-cases (get? out j)) [
  | inl e ↦ rw e (
      ground (
        arith,
        add_missing-get? (set out j v) m k h.1,
        get?-set out j k v,
        get?-Absent j m h.0,
        eq_bytes_iff j k,
      ))
  | inr (w, e) ↦ rw e (ground (arith, add_missing-get? out m k h.1, eq_bytes_iff j k))
]

-- A message carries the standard fields of the state, and a key of the payload shows at the top of the
-- message exactly where no standard field has that name: a payload cannot forge the status, the weight
-- or the device.
pub to_message-get? :
    (lib : Libs) (r : RuntimeState) (k : Bytes)
    → IsMap r.payload
    → get? (to_message lib r) k ≡ override (get? (standard_fields lib r) k) (get? r.payload k)
unfolding to_message
to_message-get? lib r k h = add_missing-get? (standard_fields lib r) r.payload k h

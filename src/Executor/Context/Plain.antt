-- ===== src/Executor/Context/Plain.antt =====
-- What resolution leaves alone.
use quantix_cnnector_go.Prelude.{◌≡◌, refl, ap, []}
use quantix_cnnector_go.Value.{
  Value, string, items, object, Items, nil, cons, Fields, end, field, Libs,
}
use quantix_cnnector_go.Executor.Context.{
  placeholders, resolve_value, resolve_items, resolve_fields,
}

-- No text in the value holds a placeholder.
unfoldable mutual
  pub IsPlain : Value → Type 0
  IsPlain (object m) = IsPlainFields m
  IsPlain (items xs) = IsPlainItems xs
  IsPlain (string t) = placeholders t ≡ []
  IsPlain v = Unit {0}

  pub IsPlainItems : Items → Type 0
  IsPlainItems nil = Unit {0}
  IsPlainItems (cons x xs) = IsPlain x × IsPlainItems xs

  pub IsPlainFields : Fields → Type 0
  IsPlainFields end = Unit {0}
  IsPlainFields (field k v m) = IsPlain v × IsPlainFields m

module _ (lib : Libs) where
  mutual
    unfolding resolve_value IsPlain

    resolve_plain : (v : Value) (context : Fields) → IsPlain v → resolve_value lib v context ≡ v
    resolve_plain (object m) context h = ap object (resolve_plain_fields m context h)
    resolve_plain (items xs) context h = ap items (resolve_plain_items xs context h)
    resolve_plain (string t) context h = rw h
    resolve_plain v context h = refl

    resolve_plain_items :
        (xs : Items) (context : Fields) → IsPlainItems xs → resolve_items lib xs context ≡ xs
    resolve_plain_items nil context h = refl
    resolve_plain_items (cons x xs) context h =
        cc (resolve_plain x context h.0, resolve_plain_items xs context h.1)

    resolve_plain_fields :
        (m : Fields) (context : Fields) → IsPlainFields m → resolve_fields lib m context ≡ m
    resolve_plain_fields end context h = refl
    resolve_plain_fields (field k v m) context h =
        cc (resolve_plain v context h.0, resolve_plain_fields m context h.1)

  -- A value with no placeholder in any of its texts, at any depth, resolves to itself in every context.
  pub resolve_value-IsPlain :
      (v : Value) (context : Fields) → IsPlain v → resolve_value lib v context ≡ v
  resolve_value-IsPlain v context h = resolve_plain v context h

-- ===== src/Record/Clean.antt =====
-- Nothing that `redact` lets into the journal shows a secret (rust/src/ops/record.rs).
use Prim.Native.Char.{Char}
use zte_u60_pro_mu5250_data.Common.{
  ◌-◌, ◌≤◌, String, Bool, true, false, ◌&&◌, not, List, [], ◌∷◌, ap, length-drop, length, drop,
  if◌then◌else◌, ◌≡◌, refl, ◌⊎◌, inl, inr, arith, Bool-cases,
}
use zte_u60_pro_mu5250_data.Common.Text.{chars, text_of}
use zte_u60_pro_mu5250_data.Json.{
  Json, null, boolean, number, string, array, object, Items, nil, cons, Fields, end, field,
}
use zte_u60_pro_mu5250_data.Record.Redact.{
  is_secret, is_sim_id, tail4, redacted, is_null, text_value, redact_field, redact_value,
  redact_items, redact_fields, redact, withheld, Hidden, Clean, CleanItems, CleanFields,
}

chars-text_of : (cs : List Char) → chars (text_of cs) ≡ cs
unfolding chars
chars-text_of [] = refl
chars-text_of (c ∷ cs) = ap (λ x. c ∷ x) (chars-text_of cs)

tail4_short : (s : String) → length (chars (tail4 s)) ≤ 4
unfolding tail4
tail4_short s =
    let cs = chars s in
    let k = drop (length cs - 4) cs in
    rw (chars-text_of k) (omega (arith, length-drop (length cs - 4) cs))

-- A field by what its key is and whether its value is null.
by_key :
    (s i n : Bool) (text : String) (inner : Json)
    → length (chars text) ≤ 4
    → (n ≡ true → inner ≡ null)
    → Clean inner
    → let r : Json =
        if s && not n then string redacted else if i && not n then string text else inner in
      ((s ≡ true → (r ≡ null) ⊎ (r ≡ string redacted))
        × (s ≡ false
            → i ≡ true
            → (r ≡ null) ⊎ ((t : String) × (r ≡ string t) × (length (chars t) ≤ 4))))
      × Clean r
unfolding Clean
by_key true i false text inner h n c = ((λ e. inr refl, λ e. cc), tt)
by_key true true true text inner h n c = ((λ e. inl (n refl), λ e. cc), c)
by_key true false true text inner h n c = ((λ e. inl (n refl), λ e. cc), c)
by_key false true false text inner h n c = ((λ e. cc, λ e f. inr (text, refl, h)), tt)
by_key false true true text inner h n c = ((λ e. cc, λ e f. inl (n refl)), c)
by_key false false n' text inner h n c = ((λ e. cc, λ e f. cc), c)

module _ (json_text : Json → String) where
  Hidden-field :
      (k : String) (v inner : Json)
      → (is_null v ≡ true → inner ≡ null)
      → Clean inner
      → Hidden k (redact_field json_text k v inner) × Clean (redact_field json_text k v inner)
  unfolding redact_field
  Hidden-field k v inner n c =
      by_key (is_secret k) (is_sim_id k) (is_null v) (tail4 (text_value json_text v)) inner
        (tail4_short (text_value json_text v)) n c

  null_stays : (v : Json) → is_null v ≡ true → redact_value json_text v ≡ null
  unfolding is_null redact_value
  null_stays null h = refl
  null_stays (boolean b) h = cc
  null_stays (number n) h = cc
  null_stays (string s) h = cc
  null_stays (array xs) h = cc
  null_stays (object fs) h = cc

  mutual
    unfolding redact_value Clean

    value-Clean : (v : Json) → Clean (redact_value json_text v)
    value-Clean null = tt
    value-Clean (boolean b) = tt
    value-Clean (number n) = tt
    value-Clean (string s) = tt
    value-Clean (array xs) = items-Clean xs
    value-Clean (object fs) = fields-Clean fs

    items-Clean : (xs : Items) → CleanItems (redact_items json_text xs)
    items-Clean nil = tt
    items-Clean (cons x xs) = (value-Clean x, items-Clean xs)

    fields-Clean : (fs : Fields) → CleanFields (redact_fields json_text fs)
    fields-Clean end = tt
    fields-Clean (field k v more) = (
      Hidden-field k v (redact_value json_text v) (null_stays v) (value-Clean v),
      fields-Clean more,
    )

  -- In what the journal keeps of a request's parameters, at any depth, the value of a secret key is null
  -- or `(changed)`, and the value of another key that names a SIM is null or a text of at most four
  -- characters.
  pub redact-Clean : (action : String) (params : Fields) → Clean (redact json_text action params)
  unfolding redact Clean
  redact-Clean action params = elim (Bool-cases (withheld action params)) [
    | inl e ↦ rw e tt
    | inr e ↦ rw e (value-Clean (object params))
  ]

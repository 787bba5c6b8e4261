-- ===== src/Control/Permitted/Options.antt =====
-- What passes the checks of `wifi_apply` is an option of the lists (rust/src/control.rs).
use Prim.Native.Char.{Char}
use Prim.Native.String.{◌++◌, len}
use zte_u60_pro_mu5250_data.Common.{
  ◌||◌, ltb, String, Bool, true, false, Option, none, some, List, [], ◌∷◌, if◌then◌else◌, Result,
  ok, err, ◌≡◌, refl, arith, inl, inr, Bool-cases, str_eq, str_eq_iff, ◌&&◌, not, is_some_and,
  subst,
}
use zte_u60_pro_mu5250_data.Common.Text.{has_char, split_once, chars, text_of}
use zte_u60_pro_mu5250_data.Engine.Sessions.{has}
use zte_u60_pro_mu5250_data.Json.{Json, Fields, end, field}
use zte_u60_pro_mu5250_data.Control.Wifi.{
  Env, is_line_end, ap_sections, ap_options, radio_options, option_ok, rest_ok, value_text,
  dead_keys, Checked, check_all, check_option, add_checked, key_ok,
}
use zte_u60_pro_mu5250_data.Control.Listed.{IsRadio, IsOption, Sets}

abbrev pub KeysOk : String × String → List (String × String) → Type 0
KeysOk radios [] = Unit
KeysOk radios ((path, value) ∷ more) = Sets path radios × KeysOk radios more

abbrev pub CheckedOk : String × String → Checked → Type 0
CheckedOk radios (err e) = Unit
CheckedOk radios (ok (updates, skipped)) = KeysOk radios updates

and_true : (a b : Bool) → a && b ≡ true → (a ≡ true) × (b ≡ true)
and_true a b h = ground arith

radio_lem :
    (sec r0 r1 : String)
    → str_eq sec "wifi0" || str_eq sec "wifi1" || str_eq r0 sec || str_eq r1 sec ≡ true
    → IsRadio sec (r0, r1)
radio_lem sec r0 r1 h =
    ground
      (arith, str_eq_iff sec "wifi0", str_eq_iff sec "wifi1", str_eq_iff r0 sec, str_eq_iff r1 sec)

option_ok-IsOption :
    (sec opt r0 r1 : String) → option_ok sec opt (r0, r1) ≡ true → IsOption sec opt (r0, r1)
unfolding option_ok
option_ok-IsOption sec opt r0 r1 h = elim (Bool-cases (has ap_sections sec && has ap_options opt)) [
  | inl e ↦ inl (and_true _ _ e)
  | inr e ↦
      let k =
        and_true radio (has radio_options opt)
          (subst (λ b. b || radio && has radio_options opt ≡ true) e h) in
      inr (radio_lem sec r0 r1 k.0, k.1)
]
  where
    radio : Bool
    radio = str_eq sec "wifi0" || str_eq sec "wifi1" || str_eq r0 sec || str_eq r1 sec

rest_ok-Sets :
    (path : String) (radios : String × String) (first : List Char) (o : Option (List Char))
    → split_once b'.' (chars path) ≡ (first, o)
    → rest_ok first o radios ≡ true
    → Sets path radios
unfolding rest_ok
rest_ok-Sets path radios first none e h = ground arith
rest_ok-Sets path (r0, r1) first (some rest) e h = by_rest (split_once b'.' rest) refl h
  where
    by_rest :
        (p : List Char × Option (List Char))
        → split_once b'.' rest ≡ p
        → str_eq (text_of first) "wireless"
            && is_some_and p.1 (λ o. option_ok (text_of p.0) (text_of o) (r0, r1))
          ≡ true
        → Sets path (r0, r1)
    by_rest (sec, none) q k = let f = (and_true _ false k).1 in ground arith
    by_rest (sec, some opt) q k =
        let (w, n) = and_true _ (option_ok (text_of sec) (text_of opt) (r0, r1)) k in
        (first, rest, sec, opt, e, w, q, option_ok-IsOption (text_of sec) (text_of opt) r0 r1 n)

-- A path that passes and is not one of those left out sets a listed option.
key_ok-Sets :
    (path : String) (radios : String × String)
    → key_ok path radios ≡ true
    → has dead_keys path ≡ false
    → Sets path radios
unfolding key_ok
key_ok-Sets path radios h d =
    let (first, rest) = split_once b'.' (chars path) in
    rest_ok-Sets path radios (split_once b'.' (chars path)).0 (split_once b'.' (chars path)).1 refl
      (ground arith)

-- What an option is checked to be: an error, left out, or listed.
abbrev Checks : String × String → String → Result String (Option String) → Type 0
Checks radios path (ok (some value)) = Sets path radios
Checks radios path _ = Unit

check_option-Checks :
    (env : Env) (radios : String × String) (path : String) (v : Json)
    → Checks radios path (check_option env radios path v)
unfolding check_option is_line_end
check_option-Checks env radios path v =
    by_key (key_ok path radios) refl (value_text env v) (has dead_keys path) refl
  where
    by_key :
        (k : Bool)
        → key_ok path radios ≡ k
        → (o : Option String) (d : Bool) → has dead_keys path ≡ d
        → Checks radios path (
            if not k
            then err ("not a Wi-Fi option this action sets: " ++ path)
            else (elim o as (λ x. Result String (Option String)) [
              | none ↦ err (path ++ ": value must be a string, number or boolean")
              | some value ↦
                  if ltb 128 (len value) || has_char is_line_end (chars value)
                  then err (path ++ ": invalid value")
                  else if d
                  then ok none
                  else ok (some value)
            ]))
    by_key false e o d f = tt
    by_key true e none d f = tt
    by_key true e (some value) d f =
        elim (Bool-cases (ltb 128 (len value) || has_char is_line_end (chars value))) [
          | inl long ↦ rw long tt
          | inr good ↦ rw good (by_dead value d f)
        ]
      where
        by_dead :
            (value : String) (d : Bool)
            → has dead_keys path ≡ d
            → Checks radios path (if d then ok none else ok (some value))
        by_dead value true f = tt
        by_dead value false f = key_ok-Sets path radios e f

add_checked-CheckedOk :
    (radios : String × String) (path : String) (r : Result String (Option String)) (rest : Checked)
    → Checks radios path r
    → CheckedOk radios rest
    → CheckedOk radios (add_checked path r rest)
unfolding add_checked
add_checked-CheckedOk radios path (err e) rest k h = tt
add_checked-CheckedOk radios path (ok none) (err e) k h = tt
add_checked-CheckedOk radios path (ok (some value)) (err e) k h = tt
add_checked-CheckedOk radios path (ok none) (ok (updates, skipped)) k h = h
add_checked-CheckedOk radios path (ok (some value)) (ok (updates, skipped)) k h = (k, h)

pub check_all-CheckedOk :
    (env : Env) (radios : String × String) (fs : Fields)
    → CheckedOk radios (check_all env radios fs)
unfolding check_all
check_all-CheckedOk env radios end = tt
check_all-CheckedOk env radios (field path v more) =
    add_checked-CheckedOk radios path (check_option env radios path v) (check_all env radios more)
      (check_option-Checks env radios path v) (check_all-CheckedOk env radios more)

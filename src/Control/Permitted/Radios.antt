-- ===== src/Control/Permitted/Radios.antt =====
-- The radio sections that `wifi_apply` takes are the known ones, or those that the device names
-- (rust/src/wifi.rs, rust/src/control.rs).
use mathlib.Core.List.{◌++◌ as ◌++ᴸ◌}
use zte_u60_pro_mu5250_data.Common.{
  String, Bool, true, false, Option, none, some, List, [], ◌∷◌, if◌then◌else◌, Result, ok, err, ◌≡◌,
  refl, ◌≤◌, arith, str_eq_refl, unwrap_or,
}
use zte_u60_pro_mu5250_data.Common.Text.{chars, trim, text_of}
use zte_u60_pro_mu5250_data.Engine.Sessions.{has}
use zte_u60_pro_mu5250_data.Executor.Calls.{UbusError}
use zte_u60_pro_mu5250_data.Json.{as_str_of, get_in, Json}
use zte_u60_pro_mu5250_data.Control.Program.{ubus, as_text, ◌>>=◌}
use zte_u60_pro_mu5250_data.Control.Wifi.{
  Env, uci_query, radio_name, radio_read, radio_sections, radio_section,
}
use zte_u60_pro_mu5250_data.Control.Runs.{Keeps, bind-Keeps, called}
use zte_u60_pro_mu5250_data.Control.Listed.{
  section_told, Radio, Radios, changes, Tally, fresh_tally, may_call, watch,
}

-- Nothing is changed, and no time has gone by.
abbrev Untouched : Tally → Type 0
Untouched t = (t.changed ≡ false) × (t.time ≤ 0)

Radio-more :
    (found : Option String) (fallback : String) (new told : List String) (name : String)
    → Radio found fallback told name
    → Radio found fallback (new ++ᴸ told) name
unfolding has
Radio-more (some known) fallback new told name h = h
Radio-more none fallback [] told name h = h
Radio-more none fallback (n ∷ more) told name h =
    let k = Radio-more none fallback more told name h in ground arith

given_or :
    (c : Bool) (name fallback : String) (told : List String)
    → has (fallback ∷ name ∷ told) (unwrap_or (if c then some name else none) fallback) ≡ true
unfolding has
given_or true name fallback told = rw (str_eq_refl name) (ground arith)
given_or false name fallback told = rw (str_eq_refl fallback) refl

-- Without a known name, the section read is the fallback or the one that the reply names.
radio_read-Radio :
    (fallback : String) (v : Json) (r : Result UbusError Json) (told : List String)
    → Radio none fallback
        (section_told (called "uci" "get" v r) ++ᴸ told)
        (radio_read fallback (as_text r))
unfolding radio_read radio_name has as_text as_str_of
radio_read-Radio fallback v (err e) told = rw (str_eq_refl fallback) refl
radio_read-Radio fallback v (ok x) told = by_value (as_str_of (get_in x "value"))
  where
    by_value :
        (o : Option String)
        → Radio none fallback
            ((elim o as (λ y. List String) [ none ↦ [] | some s ↦ text_of (trim (chars s)) ∷ [] ])
              ++ᴸ told)
            (unwrap_or (radio_name o) fallback)
    by_value none = rw (str_eq_refl fallback) refl
    by_value (some s) = given_or _ (text_of (trim (chars s))) fallback told

-- The section is one that the command may name, and one named before it still is.
Named : Option String → String → Option String → String → String → Tally → String → Type 0
Named found fallback before other name t a =
    Untouched t × Radio found fallback t.told a × Radio before other t.told name

radio_section-Keeps :
    (env : Env) (known : Option String) (ap fallback : String) (before : Option String)
    (other name : String) (t : Tally)
    → Untouched t
    → Radio before other t.told name
    → Keeps (watch env) (Named known fallback before other name) t (radio_section known ap fallback)
unfolding radio_section ubus ◌>>=◌ may_call changes Named
radio_section-Keeps env (some found) ap fallback before other name t h k = (h, refl, k)
radio_section-Keeps env none ap fallback before other name t h k = λ r. (
  refl,
  (
    (ground arith, ground arith),
    radio_read-Radio fallback (uci_query ap "device") r t.told,
    Radio-more before other (section_told (called "uci" "get" (uci_query ap "device") r)) t.told
        name k,
  ),
)

unfoldable pub Found : Env → Tally → String × String → Type 0
Found env t radios = Untouched t × Radios env t.told radios

pub radio_sections-Keeps :
    (env : Env) → Keeps (watch env) (Found env) fresh_tally (radio_sections env)
unfolding radio_sections Named Found
radio_sections-Keeps env =
    bind-Keeps (watch env) (Named env.radio_2g "wifi0" (some "") "" "") (Found env)
      (radio_section env.radio_2g "main_2g" "wifi0") _ fresh_tally
      (radio_section-Keeps env env.radio_2g "main_2g" "wifi0" (some "") "" "" fresh_tally
        (refl, omega arith) refl)
      λ t a h.
        bind-Keeps (watch env) (Named env.radio_5g "wifi1" env.radio_2g "wifi0" a) (Found env)
          (radio_section env.radio_5g "main_5g" "wifi1") _ t
          (radio_section-Keeps env env.radio_5g "main_5g" "wifi1" env.radio_2g "wifi0" a t h.0 h.1)
          (λ u b k. (k.0, (k.2, k.1)))

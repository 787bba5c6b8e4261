-- ===== src/Record/Redact.antt =====
-- `redact`: no secret of a request goes into the journal, and of a SIM's numbers only the last four
-- characters (rust/src/ops/record.rs). Keys are compared as code points.
use Prim.Native.Char.{Char, code}
use zte_u60_pro_mu5250_data.Common.{
  ℕ, ◌+◌, ◌-◌, ◌≤◌, String, str_eq, Bool, true, false, ◌&&◌, ◌||◌, not, Option, none, some, List,
  [], ◌∷◌, ◌++◌, length, drop, leb, ◌==◌, if◌then◌else◌, ◌≡◌, ◌⊎◌,
}
use zte_u60_pro_mu5250_data.Common.Text.{chars, text_of}
use zte_u60_pro_mu5250_data.Json.{
  Json, null, boolean, number, string, array, object, Items, nil, cons, Fields, end, field, get,
  as_str_of,
}

unfoldable codes_of : List Char → List ℕ
codes_of [] = []
codes_of (c ∷ more) = code c ∷ codes_of more

-- `to_ascii_lowercase`
lower : List ℕ → List ℕ
lower [] = []
lower (c ∷ more) = (if leb b'A' c && leb c b'Z' then c + 32 else c) ∷ lower more

unfoldable pub codes : String → List ℕ
unfolding codes_of
codes s = codes_of (chars s)

same : List ℕ → List ℕ → Bool
same [] [] = true
same (a ∷ as') (b ∷ bs) = a == b && same as' bs
same _ _ = false

starts : List ℕ → List ℕ → Bool
starts s [] = true
starts [] (b ∷ bs) = false
starts (a ∷ more) (b ∷ bs) = a == b && starts more bs

contains : List ℕ → List ℕ → Bool
contains [] w = starts [] w
contains (a ∷ more) w = starts (a ∷ more) w || contains more w

ends_in : List ℕ → List ℕ → Bool
ends_in [] w = same [] w
ends_in (a ∷ more) w = same (a ∷ more) w || ends_in more w

parts : List ℕ → List (List ℕ)
parts [] = [] ∷ []
parts (c ∷ more) = elim (parts more) [
  | [] ↦ [] ∷ []
  | part ∷ rest ↦ if c == b'_' then [] ∷ part ∷ rest else (c ∷ part) ∷ rest
]

any_same : List (List ℕ) → List ℕ → Bool
any_same [] w = false
any_same (p ∷ more) w = same p w || any_same more w

any_of : (List ℕ → List ℕ → Bool) → List ℕ → List String → Bool
any_of test k [] = false
any_of test k (w ∷ more) = test k (codes w) || any_of test k more

abbrev secret_names : List String
secret_names =
    "pin" ∷ "code" ∷ "activation_code" ∷ "confirm_code" ∷ "confirmation_code" ∷ "matching_id" ∷ []

abbrev secret_words : List String
secret_words = "pass" ∷ "psk" ∷ "secret" ∷ "token" ∷ "user" ∷ "key" ∷ "puk" ∷ "cred" ∷ []

-- `secret`
unfoldable pub is_secret : String → Bool
unfolding lower codes same starts contains ends_in parts any_same any_of
is_secret key =
    let k = lower (codes key) in
    any_of same k secret_names
    || any_of contains k secret_words
    || any_same (parts k) (codes "nck")
    || (any_same (parts k) (codes "pin")
        && not (ends_in k (codes "_mode"))
        && not (ends_in k (codes "_flag")))

id_key : List ℕ → List String → Bool
id_key k [] = false
id_key k (w ∷ more) =
    same k (codes w)
    || ends_in k (b'_' ∷ codes w)
    || starts k (codes w ++ b'_' ∷ [])
    || id_key k more

-- `sim_id_key`
unfoldable pub is_sim_id : String → Bool
unfolding lower codes same starts ends_in id_key
is_sim_id key = id_key (lower (codes key)) ("iccid" ∷ "eid" ∷ "imsi" ∷ "msisdn" ∷ [])

-- `tail4`
unfoldable pub tail4 : String → String
tail4 s = let cs = chars s in text_of (drop (length cs - 4) cs)

abbrev pub redacted : String
redacted = "(changed)"

unfoldable pub is_null : Json → Bool
is_null null = true
is_null _ = false

method_has_sms : Option String → Bool
method_has_sms none = false
method_has_sms (some m) = contains (codes m) (codes "sms")

-- The short messages, and the vendor calls on them.
unfoldable pub withheld : String → Fields → Bool
unfolding method_has_sms starts contains
withheld action params =
    starts (codes action) (codes "sms.")
    || (str_eq action "vendor.call" && method_has_sms (as_str_of (get params "method")))

-- `to_string` is a parameter.
module _ (json_text : Json → String) where
  unfoldable pub text_value : Json → String
  text_value (string s) = s
  text_value v = json_text v

  -- The value of a field, with its value were the key harmless.
  unfoldable pub redact_field : String → Json → Json → Json
  unfolding is_null text_value
  redact_field k v inner =
      if is_secret k && not (is_null v)
      then string redacted
      else if is_sim_id k && not (is_null v)
      then string (tail4 (text_value v))
      else inner

  -- `redact_value`
  unfoldable mutual
    pub redact_value : Json → Json
    redact_value (object fs) = object (redact_fields fs)
    redact_value (array xs) = array (redact_items xs)
    redact_value null = null
    redact_value (boolean b) = boolean b
    redact_value (number n) = number n
    redact_value (string s) = string s

    pub redact_items : Items → Items
    redact_items nil = nil
    redact_items (cons x xs) = cons (redact_value x) (redact_items xs)

    pub redact_fields : Fields → Fields
    redact_fields end = end
    redact_fields (field k v more) =
        field k (redact_field k v (redact_value v)) (redact_fields more)

  -- `redact`
  unfoldable pub redact : String → Fields → Json
  redact action params = if withheld action params then null else redact_value (object params)

-- What a field of the journal may show.
abbrev pub Hidden : String → Json → Type 0
Hidden k v =
    (is_secret k ≡ true → (v ≡ null) ⊎ (v ≡ string redacted))
    × (is_secret k ≡ false
        → is_sim_id k ≡ true
        → (v ≡ null) ⊎ ((s : String) × (v ≡ string s) × (length (chars s) ≤ 4)))

-- `Hidden` at every field, however deep.
unfoldable mutual
  pub Clean : Json → Type 0
  Clean (object fs) = CleanFields fs
  Clean (array xs) = CleanItems xs
  Clean _ = Unit

  pub CleanItems : Items → Type 0
  CleanItems nil = Unit
  CleanItems (cons x xs) = Clean x × CleanItems xs

  pub CleanFields : Fields → Type 0
  CleanFields end = Unit
  CleanFields (field k v more) = (Hidden k v × Clean v) × CleanFields more

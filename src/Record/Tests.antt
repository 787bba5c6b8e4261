-- ===== src/Record/Tests.antt =====
-- The theorems on the journal at concrete inputs, and the redaction of a request.
use zte_u60_pro_mu5250_data.Common.{ℕ, ◌+◌, String, none, some, List, [], ◌∷◌, ◌≡◌, refl, arith}
use zte_u60_pro_mu5250_data.Common.Text.{chars}
use zte_u60_pro_mu5250_data.Json.{Json, string, object, Fields, end, field, int}
use zte_u60_pro_mu5250_data.Record.Redact.{
  is_secret, is_sim_id, tail4, codes, redact_field, redact_value, redact, withheld, Clean,
}
use zte_u60_pro_mu5250_data.Record.Clean.{redact-Clean}
use zte_u60_pro_mu5250_data.Record.Skips.{
  Key, start, stop, line, skip_line, Journal, find_skip, append, Act, append_act, skip_act,
  room_act, act_all,
}
use zte_u60_pro_mu5250_data.Record.Accounted.{total, made_all, act_all-accounted}
use zte_u60_pro_mu5250_data.Record.Merging.{repeat_skip, skips_merge}

abbrev request : Fields
request =
    field "new_pin_num" (string "1234")
      (field "pin_mode" (int 1) (field "iccid" (string "8986001234") end))

abbrev json_text : Json → String
json_text v = "?"

redacted_request :
    redact json_text "sim.change" request
    ≡ object (
        field "new_pin_num"
          (string "(changed)")
          (field "pin_mode" (int 1) (field "iccid" (string "1234") end)))
unfolding redact withheld codes chars redact_value redact_field int is_secret is_sim_id tail4
redacted_request = refl

redact-Clean_example : Clean (redact json_text "sim.change" request)
redact-Clean_example = redact-Clean json_text "sim.change" request

abbrev key : Key
key = ("guard", "network.mode")

-- A journal whose channel has room for three.
abbrev journal : Journal ℕ
journal = record { skips = []; dropped = 0; room = 3; sent = [] }

not_skipping : find_skip journal.skips key ≡ none
unfolding find_skip
not_skipping = refl

skips_merge_example :
    let j = append (repeat_skip 5 journal key "busy") (some key) 7 in
    (j.sent ≡ line 7 ∷ skip_line key "busy" stop 5 ∷ skip_line key "busy" start 1 ∷ [])
    × (j.skips ≡ [])
    × (j.dropped ≡ 0)
skips_merge_example = skips_merge 4 journal key "busy" 7 not_skipping refl (omega arith)

abbrev acts : List (Act ℕ)
acts =
    append_act none 1
    ∷ skip_act key "busy"
    ∷ append_act none 2
    ∷ append_act none 3
    ∷ append_act (some key) 4
    ∷ room_act 4
    ∷ append_act none 5
    ∷ []

act_all-accounted_example :
    total (act_all journal acts).sent + (act_all journal acts).dropped ≡ 0 + made_all journal acts
act_all-accounted_example = act_all-accounted journal acts

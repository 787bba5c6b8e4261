-- ===== src/Auth/Tests.antt =====
-- The theorems about the web interface's sessions on concrete sessions.
use zte_u60_pro_mu5250_data.Common.{
  ℕ, ◌≤◌, true, none, some, List, [], ◌∷◌, length, ◌≡◌, ◌↔◌, arith,
}
use zte_u60_pro_mu5250_data.Auth.Sessions.{Sessions, session_limit, validate}
use zte_u60_pro_mu5250_data.Auth.Validity.{
  IsLive, validate-IsLive, Call, validate_call, issue_call, calls, calls-limit,
}

abbrev two_sessions : Sessions
two_sessions =
    record { token = 97 ∷ 98 ∷ []; expires_at = 1000 }
    ∷ record { token = 99 ∷ []; expires_at = 2000 }
    ∷ []

abbrev ab : List ℕ
ab = 97 ∷ 98 ∷ []

abbrev ac : List ℕ
ac = 97 ∷ 99 ∷ []

validate-IsLive_example :
    ((validate two_sessions (99 ∷ []) 1500).1 ≡ true) ↔ IsLive (99 ∷ []) 1500 two_sessions
validate-IsLive_example = validate-IsLive two_sessions (99 ∷ []) 1500

abbrev some_calls : List Call
some_calls =
    issue_call (some (171 ∷ 205 ∷ [])) 500 500
    ∷ validate_call (99 ∷ []) 1500
    ∷ issue_call none 1600 1600
    ∷ []

calls-limit_example : length (calls two_sessions some_calls) ≤ session_limit
calls-limit_example = calls-limit two_sessions some_calls (omega arith)

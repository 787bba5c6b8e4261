-- ===== src/Auth/Validity.antt =====
-- Which tokens are valid, and how many sessions there are (rust/src/auth.rs).
use zte_u60_pro_mu5250_data.Common.{
  ℕ, zero, suc, ◌+◌, ◌≤◌, ◌<◌, true, Option, none, some, List, [], ◌∷◌, ◌++◌, length, length-append,
  add_u64, ◌≡◌, ◌↔◌, refl, arith, ◌⊎◌, inl, inr, u64_mod,
}
use zte_u60_pro_mu5250_data.Auth.Bits.{secure_eq_iff}
use zte_u60_pro_mu5250_data.Auth.Sessions.{
  Session, Sessions, session_ttl, session_limit, retain, renew, validate, oldest, remove, make_room,
  hex, issue,
}

-- Some session has the token and has not expired.
abbrev pub IsLive : List ℕ → ℕ → Sessions → Type 0
IsLive token now [] = ⊥
IsLive token now (s ∷ more) = ((s.token ≡ token) × (now < s.expires_at)) ⊎ IsLive token now more

renew_finds :
    (until now : ℕ) (token : List ℕ) (ss : Sessions)
    → ((renew until token (retain now ss)).1 ≡ true) ↔ IsLive token now ss
unfolding renew retain
renew_finds until now token [] = ground arith
renew_finds until now token (s ∷ more) =
    ground (arith, renew_finds until now token more, secure_eq_iff s.token token)

-- A token is valid exactly when some session has it and has not expired.
pub validate-IsLive :
    (ss : Sessions) (token : List ℕ) (now : ℕ)
    → ((validate ss token now).1 ≡ true) ↔ IsLive token now ss
unfolding validate
validate-IsLive ss token now = renew_finds (add_u64 now session_ttl) now token ss

length-retain : (now : ℕ) (ss : Sessions) → length (retain now ss) ≤ length ss
unfolding retain
length-retain now [] = omega arith
length-retain now (s ∷ more) = ground (arith, length-retain now more)

length-renew :
    (until : ℕ) (token : List ℕ) (ss : Sessions) → length (renew until token ss).0 ≡ length ss
unfolding renew
length-renew until token [] = refl
length-renew until token (s ∷ more) = ground (arith, length-renew until token more)

oldest-in : (s : Session) (more : Sessions) → (oldest s more).0 ≤ length more
unfolding oldest
oldest-in s [] = omega arith
oldest-in s (t ∷ more) = ground (arith, oldest-in t more)

length-remove : (ss : Sessions) (i : ℕ) → i < length ss → length (remove ss i) + 1 ≡ length ss
unfolding remove
length-remove [] i h = elim h [ ]
length-remove (s ∷ more) zero h = omega arith
length-remove (s ∷ more) (suc i) h = omega (arith, length-remove more i (omega arith))

make_room-under :
    (ss : Sessions) → length ss ≤ session_limit → length (make_room ss) < session_limit
unfolding make_room
make_room-under [] h = omega arith
make_room-under (s ∷ more) h =
    ground (arith, length-remove (s ∷ more) (oldest s more).0 (omega (arith, oldest-in s more)))

pub data Call : Type 0 where
  validate_call : List ℕ → ℕ → Call
  issue_call : Option (List ℕ) → ℕ → ℕ → Call

abbrev pub call : Sessions → Call → Sessions
call ss (validate_call token now) = (validate ss token now).0
call ss (issue_call bytes now now') = (issue ss bytes now now').0

abbrev pub calls : Sessions → List Call → Sessions
calls ss [] = ss
calls ss (c ∷ more) = calls (call ss c) more

call-limit :
    (ss : Sessions) (c : Call) → length ss ≤ session_limit → length (call ss c) ≤ session_limit
unfolding validate issue
call-limit ss (validate_call token now) h =
    omega
      (arith, length-renew (add_u64 now session_ttl) token (retain now ss), length-retain now ss)
call-limit ss (issue_call none now now') h = h
call-limit ss (issue_call (some bytes) now now') h = omega (
  arith,
  make_room-under (retain now' ss) (omega (arith, length-retain now' ss)),
  length-append (make_room (retain now' ss))
      (record { token = hex bytes; expires_at = add_u64 now session_ttl } ∷ []),
)

-- After any sequence of calls on at most sixteen sessions there are at most sixteen.
pub calls-limit :
    (ss : Sessions) (more : List Call)
    → length ss ≤ session_limit
    → length (calls ss more) ≤ session_limit
calls-limit ss [] h = h
calls-limit ss (c ∷ more) h = calls-limit (call ss c) more (call-limit ss c h)

IsLive-last :
    (s : Session) (now : ℕ) (ss : Sessions) → now < s.expires_at → IsLive s.token now (ss ++ s ∷ [])
IsLive-last s now [] h = inl (refl, h)
IsLive-last s now (t ∷ more) h = inr (IsLive-last s now more h)

-- A token that was just issued is valid until its time is up, whatever the sessions were, where the
-- clock does not overflow.
pub issue-valid :
    (ss : Sessions) (bytes : List ℕ) (now now' later : ℕ)
    → now + session_ttl < u64_mod
    → later < now + session_ttl
    → (validate (issue ss (some bytes) now now').0 (hex bytes) later).1 ≡ true
unfolding issue
issue-valid ss bytes now now' later fits h =
    let s : Session = record { token = hex bytes; expires_at = add_u64 now session_ttl } in
    (validate-IsLive (make_room (retain now' ss) ++ s ∷ []) (hex bytes) later).1
      (IsLive-last s later (make_room (retain now' ss)) (omega arith))

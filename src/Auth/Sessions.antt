-- ===== src/Auth/Sessions.antt =====
-- `Sessions::validate` and `Sessions::issue` (rust/src/auth.rs). A token is the list of its bytes, a
-- time a number of seconds. The bytes of /dev/urandom are an argument, `none` where reading failed.
use zte_u60_pro_mu5250_data.Common.{
  ℕ, zero, suc, ◌+◌, ◌/◌, ◌%◌, Bool, true, false, Option, none, some, List, [], ◌∷◌, ◌++◌, length,
  ltb, leb, add_u64, if◌then◌else◌,
}
use zte_u60_pro_mu5250_data.Auth.Bits.{secure_eq}

abbrev pub session_ttl : ℕ
session_ttl = 43200

abbrev pub session_limit : ℕ
session_limit = 16

pub record Session : Type 0 where
  pub token : List ℕ
  pub expires_at : ℕ

abbrev pub Sessions : Type 0
Sessions = List Session

-- `retain(|s| s.expires_at > now)`
unfoldable pub retain : ℕ → Sessions → Sessions
retain now [] = []
retain now (s ∷ more) =
    let rest = retain now more in if ltb now s.expires_at then s ∷ rest else rest

-- The first session of the token gets the new expiry; the answer is whether there is one.
unfoldable pub renew : ℕ → List ℕ → Sessions → Sessions × Bool
renew until token [] = ([], false)
renew until token (s ∷ more) =
    let (more', found) = renew until token more in
    if secure_eq s.token token
    then (record s { expires_at = until } ∷ more, true)
    else (s ∷ more', found)

unfoldable pub validate : Sessions → List ℕ → ℕ → Sessions × Bool
validate ss token now = renew (add_u64 now session_ttl) token (retain now ss)

-- The byte of a hexadecimal digit.
unfoldable pub hex_digit : ℕ → ℕ
hex_digit d = if ltb d 10 then 48 + d else 87 + d

unfoldable pub hex : List ℕ → List ℕ
unfolding hex_digit
hex [] = []
hex (b ∷ more) = hex_digit (b / 16) ∷ hex_digit (b % 16) ∷ hex more

-- The index and the expiry of the first session that expires first.
unfoldable pub oldest : Session → Sessions → ℕ × ℕ
oldest s [] = (0, s.expires_at)
oldest s (t ∷ more) =
    let (i, e) = oldest t more in if ltb e s.expires_at then (suc i, e) else (0, s.expires_at)

unfoldable pub remove : Sessions → ℕ → Sessions
remove [] i = []
remove (s ∷ more) zero = more
remove (s ∷ more) (suc i) = s ∷ remove more i

-- The `if` on the limit.
unfoldable pub make_room : Sessions → Sessions
unfolding oldest remove
make_room [] = []
make_room (s ∷ more) =
    if leb session_limit (length (s ∷ more)) then remove (s ∷ more) (oldest s more).0 else s ∷ more

-- The clock is read once for the new session, and again to drop the expired ones.
unfoldable pub issue : Sessions → Option (List ℕ) → ℕ → ℕ → Sessions × Option (List ℕ × ℕ)
issue ss none now now' = (ss, none)
issue ss (some bytes) now now' =
    let token = hex bytes in
    let expires_at = add_u64 now session_ttl in
    (
      make_room (retain now' ss) ++ record { token = token; expires_at = expires_at } ∷ [],
      some (token, expires_at),
    )

-- ===== src/Uci/Words.antt =====
-- What the lexer's words are, and that reading them ends (rust/src/uci.rs).
use zte_u60_pro_mu5250_data.Common.{
  ℕ, suc, ◌+◌, ◌≤◌, ◌<◌, String, Bool, true, false, ◌&&◌, not, List, ◌==◌, ltb, length, drop,
  length-set, if◌then◌else◌, ok, err, ◌>>=◌, ◌≡◌, arith, Bool-cases, inl, inr,
}
use zte_u60_pro_mu5250_data.Uci.Lexer.{
  Lexer, failed, stuck, panicked, Parsed, cur, fail, skip_whitespace, validate_str, semicolon,
}
use zte_u60_pro_mu5250_data.Uci.Strings.{
  room, str_at, is_nil, check_arg, read_word, next_arg, assert_eol, skip_keyword, strtok, blanks,
  word_len,
}
use zte_u60_pro_mu5250_data.Uci.Room.{Filled, Within}
use zte_u60_pro_mu5250_data.Uci.Ending.{parse_str-Within}

-- It has ended; if it goes on, less room than `n` is left and the result is as `Q` says.
abbrev pub Good : {A : Type 0} → (A → Type 0) → ℕ → Parsed A → Type 0
Good Q n (ok (lx, a)) = Filled lx × (room lx < n) × Q a
Good Q n (err (failed e)) = Unit {0}
Good Q n (err stuck) = ⊥
Good Q n (err panicked) = ⊥

pub Good-bind :
    {A B : Type 0} (Q : A → Type 0) (R : B → Type 0) (n m : ℕ) (res : Parsed A)
    (k : Lexer × A → Parsed B)
    → Good Q n res
    → ((lx : Lexer) (a : A) → Filled lx → room lx < n → Q a → Good R m (k (lx, a)))
    → Good R m (res >>= k)
Good-bind Q R n m (ok (lx, a)) k w f = f lx a w.0 w.1 w.2
Good-bind Q R n m (err (failed e)) k w f = tt
Good-bind Q R n m (err stuck) k w f = w
Good-bind Q R n m (err panicked) k w f = w

pub Good-widen :
    {A : Type 0} (Q : A → Type 0) (n m : ℕ) (res : Parsed A) → n ≤ m → Good Q n res → Good Q m res
Good-widen Q n m (ok (lx, a)) h w = (w.0, omega (arith, w.1), w.2)
Good-widen Q n m (err (failed e)) h w = tt
Good-widen Q n m (err stuck) h w = w
Good-widen Q n m (err panicked) h w = w

abbrev pub Any : {A : Type 0} → A → Type 0
Any a = Unit {0}

Within-Good : {A : Type 0} (n : ℕ) (res : Parsed A) → Within n res → Good Any (suc n) res
Within-Good n (ok (lx, a)) w = (w.0, omega (arith, w.1), tt)
Within-Good n (err (failed e)) w = tt
Within-Good n (err stuck) w = w
Within-Good n (err panicked) w = w

-- A word: what is required is not empty, and a name that is not empty is valid.
pub record Word (required name packed : Bool) (s : List ℕ) : Type 0 where
  pub given : required ≡ true → is_nil s ≡ false
  pub valid : name ≡ true → is_nil s ≡ false → validate_str s name packed ≡ true

check_arg-Word :
    (required name packed : Bool) (lx : Lexer) (s : List ℕ)
    → Filled lx
    → Good (Word required name packed) (suc (room lx)) (check_arg required name packed lx s)
unfolding check_arg
check_arg-Word required name packed lx s b = elim (Bool-cases (is_nil s)) [
  | inl e ↦
      rw e (elim (Bool-cases required) [
        | inl r ↦ rw r tt
        | inr r ↦ rw r (b, omega arith, ground arith)
      ])
  | inr e ↦ rw e (elim (Bool-cases (name && not (validate_str s name packed))) [
    | inl v ↦ rw v tt
    | inr v ↦ rw v (b, omega arith, ground arith)
  ])
]

read_word-Within : (lx : Lexer) → Filled lx → Within (room lx) (read_word lx)
unfolding read_word
read_word-Within lx b = elim (Bool-cases (cur lx == semicolon)) [
  | inl e ↦ rw e (omega (arith, length-set lx.buf lx.pos 0))
  | inr e ↦ rw e (parse_str-Within lx lx.pos b)
]

pub room-skip_whitespace : (lx : Lexer) → room (skip_whitespace lx) ≤ room lx
unfolding skip_whitespace
room-skip_whitespace lx = omega arith

pub skip_whitespace-Filled : (lx : Lexer) → Filled lx → Filled (skip_whitespace lx)
unfolding skip_whitespace
skip_whitespace-Filled lx b = b

pub next_arg-Word :
    (lx : Lexer) (required name packed : Bool) (n : ℕ)
    → Filled lx
    → room lx < n
    → Good (Word required name packed) n (next_arg lx required name packed)
unfolding next_arg
next_arg-Word lx required name packed n b h =
    let lx' = skip_whitespace lx in
    let b' = skip_whitespace-Filled lx b in
    Good-bind Any (Word required name packed) (suc (room lx')) n (read_word lx') _
      (Within-Good (room lx') (read_word lx') (read_word-Within lx' b'))
      (λ lx'' u f r q.
        Good-widen (Word required name packed) (suc (room lx'')) n
          (check_arg required name packed lx'' (str_at lx'' lx'.pos))
          (omega (arith, room-skip_whitespace lx, r, h))
          (check_arg-Word required name packed lx'' (str_at lx'' lx'.pos) f))

pub assert_eol-Good : (lx : Lexer) (n : ℕ) → Filled lx → room lx < n → Good Any n (assert_eol lx)
unfolding assert_eol
assert_eol-Good lx n b h =
    let lx' = skip_whitespace lx in
    Good-bind (Word false false false) Any n n (next_arg lx' false false false) _
      (next_arg-Word lx' false false false n (skip_whitespace-Filled lx b)
        (omega (arith, room-skip_whitespace lx, h)))
      (λ lx'' s f r q. ended lx'' s f r)
  where
    ended :
        (lx'' : Lexer) (s : List ℕ)
        → Filled lx''
        → room lx'' < n
        → Good Any n (if is_nil s then ok (lx'', tt) else fail lx'' "too many arguments")
    ended lx'' s f r = elim (Bool-cases (is_nil s)) [ inl e ↦ rw e (f, r, tt) | inr e ↦ rw e tt ]

-- A keyword takes room.
pub skip_keyword-Good :
    (lx : Lexer) (reason : String) (n : ℕ)
    → Filled lx
    → room lx ≤ n
    → Good Any n (skip_keyword lx reason)
unfolding skip_keyword
skip_keyword-Good lx reason n b h =
    let k = length (str_at lx lx.pos) in
    elim (Bool-cases (ltb lx.filled (lx.pos + k + 1))) [
      | inl e ↦ rw e tt
      | inr e ↦ rw e (b, ground arith, tt)
    ]

pub room-strtok : (lx : Lexer) → room (strtok lx).0 ≤ room lx
unfolding strtok
room-strtok lx = ground arith

pub strtok-Filled : (lx : Lexer) → Filled lx → Filled (strtok lx).0
unfolding strtok
strtok-Filled lx b =
    let start = lx.pos + blanks (drop lx.pos lx.buf) in
    ground (arith, length-set lx.buf (start + word_len (drop start lx.buf)) 0)

-- ===== src/Uci/Strings.antt =====
-- Reading words from the lexer's buffer: quotes, `parse_str`, `next_arg`, keywords (rust/src/uci.rs). The
-- loops run on fuel, the room that is left.
use zte_u60_pro_mu5250_data.Common.{
  ℕ, zero, suc, ◌+◌, ◌-◌, ◌*◌, String, Bool, true, false, ◌&&◌, ◌||◌, not, List, [], ◌∷◌, ◌==◌, ltb,
  length, take, drop, if◌then◌else◌, ok, err, ◌>>=◌,
}
use zte_u60_pro_mu5250_data.Uci.Lexer.{
  squote, dquote, hash, semicolon, backslash_byte, is_space, validate_str, Lexer, Parsed, cur,
  set_byte, move_on, fail, getln, skip_whitespace, addc, backslash, stuck,
}

-- A pass of a loop: another one with a lexer and a target, or the end.
pub data Pass (A : Type 0) : Type 0 where
  again : Lexer → ℕ → Pass A
  stop : Parsed A → Pass A

unfoldable pub passes : {A : Type 0} → (Lexer → ℕ → Pass A) → ℕ → Lexer → ℕ → Parsed A
passes pass zero lx dest = err stuck
passes pass (suc fuel) lx dest = elim (pass lx dest) [
  | again lx' dest' ↦ passes pass fuel lx' dest'
  | stop res ↦ res
]

-- The room that is left: each byte still to come counts twice.
abbrev pub room : Lexer → ℕ
room lx = 2 * length lx.rest + (lx.filled - lx.pos)

abbrev pub next_pass : {A : Type 0} → Lexer × ℕ → Pass A
next_pass (lx, dest) = again lx dest

-- At the end of the buffer within quotes: more is read, or the file ends.
unfoldable pub refill : String → Lexer → ℕ → Pass ℕ
unfolding getln
refill reason lx dest =
    let lx' = getln lx lx.pos in if cur lx' == 0 then stop (fail lx' reason) else again lx' dest

unfoldable pub after_backslash : Lexer → ℕ → Lexer × ℕ
unfolding backslash addc
after_backslash lx dest =
    let (lx', literal) = backslash lx in if literal then addc lx' dest else (lx', dest)

unfoldable pub double_pass : Lexer → ℕ → Pass ℕ
unfolding refill after_backslash addc
double_pass lx dest =
    let c = cur lx in
    if c == dquote
    then stop (ok (move_on lx 1, dest))
    else if c == 0
    then refill "EOF with unterminated \"" lx dest
    else if c == backslash_byte
    then next_pass (after_backslash lx dest)
    else next_pass (addc lx dest)

-- The target comes back with the lexer.
unfoldable pub double_quote : Lexer → ℕ → Parsed ℕ
unfolding passes double_pass
double_quote lx dest = passes double_pass (suc (room lx)) (move_on lx 1) dest

unfoldable pub single_pass : Lexer → ℕ → Pass ℕ
unfolding refill addc
single_pass lx dest =
    let c = cur lx in
    if c == squote
    then stop (ok (move_on lx 1, dest))
    else if c == 0
    then refill "EOF with unterminated '" lx dest
    else next_pass (addc lx dest)

unfoldable pub single_quote : Lexer → ℕ → Parsed ℕ
unfolding passes single_pass
single_quote lx dest = passes single_pass (suc (room lx)) (move_on lx 1) dest

-- The end of a pass of `parse_str`; the answer has `next`.
unfoldable pub word_goes_on : Lexer × ℕ → Pass (ℕ × Bool)
word_goes_on (lx, dest) =
    if cur lx == 0 || is_space (cur lx) then stop (ok (lx, (dest, true))) else again lx dest

unfoldable pub after_quotes : Parsed ℕ → Pass (ℕ × Bool)
unfolding word_goes_on
after_quotes (ok at) = word_goes_on at
after_quotes (err e) = stop (err e)

unfoldable pub str_pass : Lexer → ℕ → Pass (ℕ × Bool)
unfolding after_quotes word_goes_on single_quote double_quote after_backslash addc
str_pass lx dest =
    let c = cur lx in
    if c == squote
    then after_quotes (single_quote lx dest)
    else if c == dquote
    then after_quotes (double_quote lx dest)
    else if c == hash
    then stop (ok (set_byte lx lx.pos 0, (dest, true)))
    else if c == 0
    then stop (ok (lx, (dest, true)))
    else if c == semicolon
    then stop (ok (lx, (dest, false)))
    else if c == backslash_byte
    then word_goes_on (after_backslash lx dest)
    else word_goes_on (addc lx dest)

unfoldable pub end_str : Lexer × (ℕ × Bool) → Parsed (Unit {0})
end_str (lx, (dest, next)) =
    let lx' = if not (cur lx == 0) && next then move_on lx 1 else lx in ok (set_byte lx' dest 0, tt)

unfoldable pub parse_str : Lexer → ℕ → Parsed (Unit {0})
unfolding passes str_pass end_str
parse_str lx dest = passes str_pass (suc (room lx)) lx dest >>= end_str

unfoldable pub until_nul : List ℕ → List ℕ
until_nul [] = []
until_nul (c ∷ more) = let word = until_nul more in if c == 0 then [] else c ∷ word

unfoldable pub str_at : Lexer → ℕ → List ℕ
unfolding until_nul
str_at lx at = until_nul (drop at lx.buf)

abbrev pub is_nil : List ℕ → Bool
is_nil [] = true
is_nil (c ∷ more) = false

-- The checks of `next_arg` on what it has read.
unfoldable pub check_arg : Bool → Bool → Bool → Lexer → List ℕ → Parsed (List ℕ)
unfolding validate_str
check_arg required name packed lx s =
    if is_nil s
    then (if required then fail lx "insufficient arguments" else ok (lx, s))
    else if name && not (validate_str s name packed)
    then fail lx "invalid character in name field"
    else ok (lx, s)

unfoldable pub read_word : Lexer → Parsed (Unit {0})
unfolding parse_str
read_word lx =
    if cur lx == semicolon then ok (move_on (set_byte lx lx.pos 0) 1, tt) else parse_str lx lx.pos

unfoldable pub next_arg : Lexer → Bool → Bool → Bool → Parsed (List ℕ)
unfolding skip_whitespace read_word str_at check_arg
next_arg lx required name packed =
    let lx' = skip_whitespace lx in
    do (lx'', u) ← read_word lx'; check_arg required name packed lx'' (str_at lx'' lx'.pos)

unfoldable pub assert_eol : Lexer → Parsed (Unit {0})
unfolding skip_whitespace next_arg
assert_eol lx = do
  (lx', s) ← next_arg (skip_whitespace lx) false false false
  if is_nil s then ok (lx', tt) else fail lx' "too many arguments"

unfoldable pub skip_keyword : Lexer → String → Parsed (Unit {0})
unfolding str_at
skip_keyword lx reason =
    let n = length (str_at lx lx.pos) in
    if ltb lx.filled (lx.pos + n + 1) then fail lx reason else ok (move_on lx (n + 1), tt)

abbrev is_blank : ℕ → Bool
is_blank c = c == 32 || c == 9

unfoldable pub blanks : List ℕ → ℕ
blanks [] = 0
blanks (c ∷ more) = let n = blanks more in if is_blank c then suc n else 0

unfoldable pub word_len : List ℕ → ℕ
word_len [] = 0
word_len (c ∷ more) = let n = word_len more in if c == 0 || is_blank c then 0 else suc n

unfoldable pub strtok : Lexer → Lexer × List ℕ
unfolding blanks word_len
strtok lx =
    let start = lx.pos + blanks (drop lx.pos lx.buf) in
    let i = start + word_len (drop start lx.buf) in
    let word = take (i - start) (drop start lx.buf) in
    (if is_nil word then lx else set_byte lx i 0, word)

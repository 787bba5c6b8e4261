-- ===== src/Uci/Ending.antt =====
-- Strings of a UCI file, quoted or not, are read to their ends (rust/src/uci.rs).
use zte_u60_pro_mu5250_data.Common.{
  ℕ, suc, ◌<◌, Bool, ◌&&◌, ◌||◌, not, ◌==◌, length-set, ok, err, ◌≡◌, arith, Bool-cases, inl, inr,
}
use zte_u60_pro_mu5250_data.Uci.Lexer.{
  Lexer, failed, stuck, panicked, Parsed, cur, move_on, addc, is_space, squote, dquote, hash,
  semicolon, backslash_byte,
}
use zte_u60_pro_mu5250_data.Uci.Strings.{
  room, Pass, passes, after_backslash, double_pass, double_quote, single_pass, single_quote,
  word_goes_on, after_quotes, str_pass, end_str, parse_str,
}
use zte_u60_pro_mu5250_data.Uci.Room.{
  Filled, Within, Shrinks, widen, Within-bind, passes-Within, addc-Room, move_on-Room, Less,
  after_backslash-Less, double_pass-Shrinks, single_pass-Shrinks,
}

quotes-Within :
    (pass : Lexer → ℕ → Pass ℕ)
    → ((lx : Lexer) (dest : ℕ) → Filled lx → Shrinks (room lx) (pass lx dest))
    → (lx : Lexer) (dest : ℕ) → Filled lx
    → Within (room (move_on lx 1)) (passes pass (suc (room lx)) (move_on lx 1) dest)
quotes-Within pass f lx dest b =
    passes-Within pass f (suc (room lx)) (move_on lx 1) dest (omega arith) b

word_goes_on-Shrinks : (n : ℕ) (at : Lexer × ℕ) → Less n at → Shrinks n (word_goes_on at)
unfolding word_goes_on
word_goes_on-Shrinks n (lx, dest) h = elim (Bool-cases (cur lx == 0 || is_space (cur lx))) [
  | inl e ↦ rw e (omega (arith, h))
  | inr e ↦ rw e h
]

after_quotes-Shrinks :
    (n m : ℕ) (res : Parsed ℕ) → m < n → Within m res → Shrinks n (after_quotes res)
unfolding after_quotes
after_quotes-Shrinks n m (ok (lx, dest)) h w = word_goes_on-Shrinks n (lx, dest) (omega (arith, w))
after_quotes-Shrinks n m (err (failed e)) h w = tt
after_quotes-Shrinks n m (err stuck) h w = w
after_quotes-Shrinks n m (err panicked) h w = w

str_pass-Shrinks : (lx : Lexer) (dest : ℕ) → Filled lx → Shrinks (room lx) (str_pass lx dest)
unfolding str_pass single_quote double_quote
str_pass-Shrinks lx dest b = elim (Bool-cases (cur lx == 0)) [
  | inl z ↦ let e : cur lx ≡ 0 = ground arith in rw e (omega arith)
  | inr z ↦
      let less = move_on-Room lx b z in
      elim (Bool-cases (cur lx == squote)) [
        | inl e ↦ rw e (
            after_quotes-Shrinks (room lx) (room (move_on lx 1)) _ less
              (quotes-Within single_pass single_pass-Shrinks lx dest b))
        | inr e ↦ rw e (elim (Bool-cases (cur lx == dquote)) [
          | inl q ↦ rw q (
              after_quotes-Shrinks (room lx) (room (move_on lx 1)) _ less
                (quotes-Within double_pass double_pass-Shrinks lx dest b))
          | inr q ↦ rw q (elim (Bool-cases (cur lx == hash)) [
            | inl c ↦ rw c (omega (arith, length-set lx.buf lx.pos 0))
            | inr c ↦
                rw (c, z)
                  (elim (Bool-cases (cur lx == semicolon)) [
                    | inl s ↦ rw s (omega (arith, b))
                    | inr s ↦ rw s (elim (Bool-cases (cur lx == backslash_byte)) [
                      | inl x ↦ rw x (
                          word_goes_on-Shrinks (room lx) (after_backslash lx dest)
                            (after_backslash-Less lx dest b z))
                      | inr x ↦
                          rw x
                            (word_goes_on-Shrinks (room lx) (addc lx dest) (addc-Room lx dest b z))
                    ])
                  ])
          ])
        ])
      ]
]

end_str-Within :
    (lx : Lexer) (dest : ℕ) (next : Bool)
    → Filled lx
    → Within (room lx) (end_str (lx, (dest, next)))
unfolding end_str
end_str-Within lx dest next b = elim (Bool-cases (not (cur lx == 0) && next)) [
  | inl e ↦ rw e (omega (arith, length-set lx.buf dest 0))
  | inr e ↦ rw e (omega (arith, length-set lx.buf dest 0))
]

pub parse_str-Within : (lx : Lexer) (dest : ℕ) → Filled lx → Within (room lx) (parse_str lx dest)
unfolding parse_str
parse_str-Within lx dest b =
    Within-bind (room lx) (room lx) (passes str_pass (suc (room lx)) lx dest) end_str
      (passes-Within str_pass str_pass-Shrinks (suc (room lx)) lx dest (omega arith) b)
      (λ lx' (d, next) b' h.
        widen (room lx') (room lx) (end_str (lx', (d, next))) h (end_str-Within lx' d next b'))

-- ===== src/Uci/Quoting.antt =====
-- The steps of `parse_str` over a quoted value, on the buffer that it rewrites (rust/src/uci.rs).
use zte_u60_pro_mu5250_data.Common.{
  ℕ, suc, ◌+◌, ◌≤◌, true, false, ◌||◌, List, [], ◌∷◌, ◌++◌, ◌==◌, length, get_elem?, set,
  length-append, length-set, append_assoc, unwrap_or, ok, ◌≡◌, refl, sym, ap, ◌∙◌, arith,
}
use zte_u60_pro_mu5250_data.Uci.Lexer.{Lexer, Parsed, cur, move_on, addc, backslash, is_space}
use zte_u60_pro_mu5250_data.Uci.Strings.{
  Pass, again, stop, passes, single_pass, single_quote, word_goes_on, after_quotes, after_backslash,
  str_pass,
}
use zte_u60_pro_mu5250_data.Uci.Room.{Filled}

-- No byte is 0.
abbrev pub NoNul : List ℕ → Type 0
NoNul [] = Unit {0}
NoNul (c ∷ more) = ((c == 0) ≡ false) × NoNul more

-- The lexer amid a string: what is done, what has been read of it otherwise, and what is to come.
pub record Amid (front junk rem : List ℕ) (lx : Lexer) (d : ℕ) : Type 0 where
  pub buf : lx.buf ≡ (front ++ junk) ++ rem
  pub dest : d ≡ length front
  pub pos : lx.pos ≡ length front + length junk
  pub filled : Filled lx

byte_behind :
    (xs : List ℕ) (c : ℕ) (ys : List ℕ) → unwrap_or (get_elem? (xs ++ c ∷ ys) (length xs)) 0 ≡ c
byte_behind [] c ys = refl
byte_behind (x ∷ xs) c ys = byte_behind xs c ys

pub set_behind :
    (xs : List ℕ) (c d : ℕ) (ys : List ℕ) → set (xs ++ c ∷ ys) (length xs) d ≡ xs ++ d ∷ ys
set_behind [] c d ys = refl
set_behind (x ∷ xs) c d ys = ap (λ r. x ∷ r) (set_behind xs c d ys)

pub cur-Amid :
    (front junk rem : List ℕ) (c : ℕ) (lx : Lexer) (dest : ℕ)
    → Amid front junk (c ∷ rem) lx dest
    → cur lx ≡ c
cur-Amid front junk rem c lx dest h =
    let at : lx.pos ≡ length (front ++ junk) = omega (arith, length-append front junk, h.pos) in
    rw (h.buf, at) (byte_behind (front ++ junk) c rem)

regroup_junk :
    (front junk rem : List ℕ) (c : ℕ)
    → (front ++ junk) ++ (c ∷ rem) ≡ (front ++ (junk ++ (c ∷ []))) ++ rem
regroup_junk front junk rem c =
    sym (append_assoc (front ++ junk) (c ∷ []) rem)
    ∙ ap (λ r. r ++ rem) (append_assoc front junk (c ∷ []))

pub move_on-Amid :
    (front junk rem : List ℕ) (c : ℕ) (lx : Lexer) (dest : ℕ)
    → Amid front junk (c ∷ rem) lx dest
    → Amid front (junk ++ c ∷ []) rem (move_on lx 1) dest
move_on-Amid front junk rem c lx dest h = record {
  buf = h.buf ∙ regroup_junk front junk rem c;
  dest = h.dest;
  pos = omega (arith, h.pos, length-append junk (c ∷ []));
  filled = h.filled;
}

-- `c` in front of the junk, and behind it: it has joined what is done, and the junk.
regroup :
    (front js rem : List ℕ) (c : ℕ)
    → front ++ (c ∷ (js ++ (c ∷ rem))) ≡ ((front ++ (c ∷ [])) ++ (js ++ (c ∷ []))) ++ rem
regroup front js rem c =
    ap (λ r. front ++ (c ∷ r)) (sym (append_assoc js (c ∷ []) rem))
    ∙ sym (append_assoc front (c ∷ []) ((js ++ (c ∷ [])) ++ rem))
    ∙ sym (append_assoc (front ++ (c ∷ [])) (js ++ (c ∷ [])) rem)

addc-Amid :
    (front js rem : List ℕ) (j c : ℕ) (lx : Lexer) (dest : ℕ)
    → Amid front (j ∷ js) (c ∷ rem) lx dest
    → Amid (front ++ c ∷ []) (js ++ c ∷ []) rem (addc lx dest).0 (addc lx dest).1
unfolding addc
addc-Amid front js rem j c lx dest h =
    let e : cur lx ≡ c = cur-Amid front (j ∷ js) rem c lx dest h in
    let b : set lx.buf dest (cur lx) ≡ front ++ (c ∷ (js ++ (c ∷ rem))) =
      rw (e, h.buf, h.dest, append_assoc front (j ∷ js) (c ∷ rem))
        (set_behind front j c (js ++ (c ∷ rem))) in
    record {
      buf = b ∙ regroup front js rem c;
      dest = omega (arith, h.dest, length-append front (c ∷ []));
      pos = omega (arith, h.pos, length-append front (c ∷ []), length-append js (c ∷ []));
      filled = omega (arith, h.filled, length-set lx.buf dest (cur lx));
    }

-- The lexer within quotes, with some junk.
pub record InQuotes (front rem : List ℕ) (lx : Lexer) (d : ℕ) : Type 0 where
  pub junk : List ℕ
  pub some_junk : 1 ≤ length junk
  pub amid : Amid front junk rem lx d

pub cur-InQuotes :
    (front rem : List ℕ) (c : ℕ) (lx : Lexer) (d : ℕ) → InQuotes front (c ∷ rem) lx d → cur lx ≡ c
cur-InQuotes front rem c lx d h = cur-Amid front h.junk rem c lx d h.amid

pub move_on-InQuotes :
    (front rem : List ℕ) (c : ℕ) (lx : Lexer) (d : ℕ)
    → InQuotes front (c ∷ rem) lx d
    → InQuotes front rem (move_on lx 1) d
move_on-InQuotes front rem c lx d h = record {
  junk = h.junk ++ (c ∷ []);
  some_junk = omega (arith, h.some_junk, length-append h.junk (c ∷ []));
  amid = move_on-Amid front h.junk rem c lx d h.amid;
}

pub addc-InQuotes :
    (front rem : List ℕ) (c : ℕ) (lx : Lexer) (d : ℕ)
    → InQuotes front (c ∷ rem) lx d
    → InQuotes (front ++ (c ∷ [])) rem (addc lx d).0 (addc lx d).1
addc-InQuotes front rem c lx d h = by_junk h.junk h.some_junk h.amid
  where
    by_junk :
        (junk : List ℕ)
        → 1 ≤ length junk
        → Amid front junk (c ∷ rem) lx d
        → InQuotes (front ++ (c ∷ [])) rem (addc lx d).0 (addc lx d).1
    by_junk [] n a = absurd (omega (arith, n))
    by_junk (j ∷ js) n a = record {
      junk = js ++ (c ∷ []);
      some_junk = omega (arith, length-append js (c ∷ []));
      amid = addc-Amid front js rem j c lx d a;
    }

module _ {A : Type 0} where
  pub passes_again :
      (pass : Lexer → ℕ → Pass A) (fuel : ℕ) (lx lx' : Lexer) (dest dest' : ℕ)
      → pass lx dest ≡ again lx' dest'
      → passes pass (suc fuel) lx dest ≡ passes pass fuel lx' dest'
  unfolding passes
  passes_again pass fuel lx lx' dest dest' e = rw (passes, e) refl

  pub passes_stop :
      (pass : Lexer → ℕ → Pass A) (fuel : ℕ) (lx : Lexer) (dest : ℕ) (res : Parsed A)
      → pass lx dest ≡ stop res
      → passes pass (suc fuel) lx dest ≡ res
  unfolding passes
  passes_stop pass fuel lx dest res e = rw (passes, e) refl

pub single_stop :
    (lx : Lexer) (dest : ℕ) → cur lx ≡ 39 → single_pass lx dest ≡ stop (ok (move_on lx 1, dest))
unfolding single_pass
single_stop lx dest e = rw e refl

pub single_again :
    (lx : Lexer) (dest : ℕ)
    → (cur lx == 39) ≡ false
    → (cur lx == 0) ≡ false
    → single_pass lx dest ≡ again (addc lx dest).0 (addc lx dest).1
unfolding single_pass addc
single_again lx dest e z = rw (e, z) refl

pub str_quote :
    (lx : Lexer) (dest : ℕ) → cur lx ≡ 39 → str_pass lx dest ≡ after_quotes (single_quote lx dest)
unfolding str_pass
str_quote lx dest e = rw e refl

backslash_quote : (lx : Lexer) → cur (move_on lx 1) ≡ 39 → backslash lx ≡ (move_on lx 1, true)
unfolding backslash
backslash_quote lx f = rw (f, backslash) refl

after_slash :
    (lx : Lexer) (dest : ℕ)
    → cur (move_on lx 1) ≡ 39
    → after_backslash lx dest ≡ addc (move_on lx 1) dest
unfolding after_backslash
after_slash lx dest f = rw (backslash_quote lx f, after_backslash) refl

pub str_slash :
    (lx : Lexer) (dest : ℕ)
    → cur lx ≡ 92
    → cur (move_on lx 1) ≡ 39
    → str_pass lx dest ≡ word_goes_on (addc (move_on lx 1) dest)
unfolding str_pass
str_slash lx dest e f = rw e (ap word_goes_on (after_slash lx dest f))

pub goes_on :
    (lx : Lexer) (dest : ℕ)
    → (cur lx == 0 || is_space (cur lx)) ≡ false
    → word_goes_on (lx, dest) ≡ again lx dest
unfolding word_goes_on
goes_on lx dest e = rw e refl

pub ends_word :
    (lx : Lexer) (dest : ℕ) → cur lx ≡ 10 → word_goes_on (lx, dest) ≡ stop (ok (lx, (dest, true)))
unfolding word_goes_on
ends_word lx dest e = rw e refl

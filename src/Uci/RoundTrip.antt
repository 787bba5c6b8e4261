-- ===== src/Uci/RoundTrip.antt =====
-- A value that `quote` writes is read back by `parse_str` (rust/src/uci.rs).
use zte_u60_pro_mu5250_data.Common.{
  ℕ, zero, suc, ◌+◌, ◌-◌, ◌≤◌, ◌<◌, Bool, true, false, ◌||◌, List, [], ◌∷◌, ◌++◌, ◌==◌, length,
  drop, set, length-append, drop-append, append-nil, append_assoc, ok, ◌>>=◌, ◌≡◌, refl, sym, ap,
  subst, ◌∙◌, arith, Bool-cases, inl, inr,
}
use zte_u60_pro_mu5250_data.Uci.Lexer.{Lexer, Parsed, cur, move_on, set_byte, addc, is_space}
use zte_u60_pro_mu5250_data.Uci.Strings.{
  room, again, stop, passes, single_pass, single_quote, after_quotes, str_pass, end_str, parse_str,
  str_at, until_nul,
}
use zte_u60_pro_mu5250_data.Uci.Show.{quote, quoted}
use zte_u60_pro_mu5250_data.Uci.Quoting.{
  NoNul, Amid, set_behind, cur-Amid, move_on-Amid, InQuotes, cur-InQuotes, move_on-InQuotes,
  addc-InQuotes, passes_again, passes_stop, single_stop, single_again, str_quote, str_slash,
  goes_on, ends_word,
}

-- A quoted string is read to its end: `res` has `front` done, and `rem` to come.
abbrev Done : List ℕ → List ℕ → Parsed (ℕ × Bool) → Type 0
Done front rem res = (lx : Lexer) × (d : ℕ) × (res ≡ ok (lx, (d, true))) × InQuotes front rem lx d

-- The rest of `parse_str` behind quotes.
after : ℕ → Parsed ℕ → Parsed (ℕ × Bool)
after fuel res = elim (after_quotes res) [ again lx d ↦ passes str_pass fuel lx d | stop r ↦ r ]

after_goes_on :
    (fuel : ℕ) (lx : Lexer) (d : ℕ)
    → (cur lx == 0 || is_space (cur lx)) ≡ false
    → after fuel (ok (lx, d)) ≡ passes str_pass fuel lx d
unfolding after after_quotes
after_goes_on fuel lx d e = rw (after, goes_on lx d e) refl

after_ends :
    (fuel : ℕ) (lx : Lexer) (d : ℕ) → cur lx ≡ 10 → after fuel (ok (lx, d)) ≡ ok (lx, (d, true))
unfolding after after_quotes
after_ends fuel lx d e = rw (after, ends_word lx d e) refl

-- A pass at a quote, and one at an escaped quote.
str_pass_quote :
    (fuel : ℕ) (lx : Lexer) (d : ℕ)
    → cur lx ≡ 39
    → passes str_pass (suc fuel) lx d ≡ after fuel (single_quote lx d)
unfolding passes after
str_pass_quote fuel lx d e = rw (passes, str_quote lx d e) refl

str_pass_slash :
    (fuel : ℕ) (lx : Lexer) (d : ℕ)
    → cur lx ≡ 92
    → cur (move_on lx 1) ≡ 39
    → passes str_pass (suc fuel) lx d ≡ after fuel (ok (addc (move_on lx 1) d))
unfolding passes after after_quotes
str_pass_slash fuel lx d e f = rw (passes, str_slash lx d e f) refl

-- A quote of the value: the string is closed, an escaped quote is read, and a string is opened.
escaped :
    (front rem : List ℕ) (fuel : ℕ) (lx : Lexer) (d : ℕ)
    → InQuotes front (39 ∷ 92 ∷ 39 ∷ 39 ∷ rem) lx d
    → (lx' : Lexer) × (d' : ℕ) × (after (suc (suc fuel)) (ok (move_on lx 1, d))
        ≡ after fuel (single_quote lx' d'))
      × InQuotes (front ++ (39 ∷ [])) (39 ∷ rem) lx' d'
escaped front rem fuel lx d h =
    let lx1 = move_on lx 1 in
    let h1 = move_on-InQuotes front (92 ∷ 39 ∷ 39 ∷ rem) 39 lx d h in
    let h2 = move_on-InQuotes front (39 ∷ 39 ∷ rem) 92 lx1 d h1 in
    let h3 = addc-InQuotes front (39 ∷ rem) 39 (move_on lx1 1) d h2 in
    let lx3 = (addc (move_on lx1 1) d).0 in
    let d3 = (addc (move_on lx1 1) d).1 in
    let e1 : cur lx1 ≡ 92 = cur-InQuotes front (39 ∷ 39 ∷ rem) 92 lx1 d h1 in
    let e2 : cur (move_on lx1 1) ≡ 39 = cur-InQuotes front (39 ∷ rem) 39 (move_on lx1 1) d h2 in
    let e3 : cur lx3 ≡ 39 = cur-InQuotes (front ++ (39 ∷ [])) rem 39 lx3 d3 h3 in
    (
      lx3,
      d3,
      after_goes_on (suc (suc fuel)) lx1 d (rw e1 refl)
          ∙ str_pass_slash (suc fuel) lx1 d e1 e2
          ∙ after_goes_on (suc fuel) lx3 d3 (rw e3 refl)
          ∙ str_pass_quote fuel lx3 d3 e3,
      h3,
    )

length-InQuotes :
    (front rem : List ℕ) (lx : Lexer) (d : ℕ) → InQuotes front rem lx d → length rem ≤ room lx
length-InQuotes front rem lx d h =
    let e : length lx.buf ≡ length front + length h.junk + length rem =
      ap length h.amid.buf
      ∙ omega (arith, length-append (front ++ h.junk) rem, length-append front h.junk) in
    omega (arith, e, h.amid.pos, h.amid.filled)

Done-cast :
    {front front' rem : List ℕ} {res res' : Parsed (ℕ × Bool)}
    → front ≡ front'
    → res' ≡ res
    → Done front rem res
    → Done front' rem res'
Done-cast {rem = rem} e f (lx, d, g, h) = (lx, d, f ∙ g, subst (λ r. InQuotes r rem lx d) e h)

-- The closing quote.
reads_end :
    (front tail : List ℕ) (inner fuel : ℕ) (lx : Lexer) (d : ℕ)
    → InQuotes front (39 ∷ 10 ∷ tail) lx d
    → Done front (10 ∷ tail) (after fuel (passes single_pass (suc inner) lx d))
reads_end front tail inner fuel lx d h =
    let h1 = move_on-InQuotes front (10 ∷ tail) 39 lx d h in
    let e =
      passes_stop single_pass inner lx d (ok (move_on lx 1, d))
        (single_stop lx d (cur-InQuotes front (10 ∷ tail) 39 lx d h)) in
    (
      move_on lx 1,
      d,
      ap (after fuel) e
          ∙ after_ends fuel (move_on lx 1) d (cur-InQuotes front tail 10 (move_on lx 1) d h1),
      h1,
    )

quoted_other : (c : ℕ) (w : List ℕ) → (c == 39) ≡ false → quoted (c ∷ w) ≡ c ∷ quoted w
unfolding quoted
quoted_other c w e = rw (quoted, e) refl

quoted_quote :
    (c : ℕ) (w : List ℕ) → (c == 39) ≡ true → quoted (c ∷ w) ≡ 39 ∷ 92 ∷ 39 ∷ 39 ∷ quoted w
unfolding quoted
quoted_quote c w e = rw (quoted, e) refl

reads_quoted :
    (v front tail : List ℕ) (inner fuel : ℕ) (lx : Lexer) (d : ℕ)
    → NoNul v
    → length (quoted v) < inner
    → length (quoted v) ≤ fuel
    → InQuotes front (quoted v ++ (39 ∷ 10 ∷ tail)) lx d
    → Done (front ++ v) (10 ∷ tail) (after fuel (passes single_pass inner lx d))
unfolding quoted single_quote
reads_quoted v front tail zero fuel lx d n i f h = absurd (omega (arith, i))
reads_quoted [] front tail (suc inner) fuel lx d n i f h =
    Done-cast (sym (append-nil front)) refl (reads_end front tail inner fuel lx d h)
reads_quoted (c ∷ w) front tail (suc inner) fuel lx d n i f h = elim (Bool-cases (c == 39)) [
  | inr e ↦
      let q = quoted_other c w e in
      let h' = subst (λ r. InQuotes front (r ++ (39 ∷ 10 ∷ tail)) lx d) q h in
      let at = cur-InQuotes front (quoted w ++ (39 ∷ 10 ∷ tail)) c lx d h' in
      let step =
        passes_again single_pass inner lx (addc lx d).0 d (addc lx d).1
          (single_again lx d (rw at e) (rw at n.0)) in
      Done-cast (append_assoc front (c ∷ []) w) (ap (after fuel) step) (
        reads_quoted w (front ++ (c ∷ [])) tail inner fuel (addc lx d).0 (addc lx d).1 n.1
          (omega (arith, i, ap length q)) (omega (arith, f, ap length q))
          (addc-InQuotes front (quoted w ++ (39 ∷ 10 ∷ tail)) c lx d h'))
  | inl e ↦
      let q = quoted_quote c w e in
      let same : 39 ≡ c = ground arith in
      let h' = subst (λ r. InQuotes front (r ++ (39 ∷ 10 ∷ tail)) lx d) q h in
      let at = cur-InQuotes front (92 ∷ 39 ∷ 39 ∷ (quoted w ++ (39 ∷ 10 ∷ tail))) 39 lx d h' in
      let step = passes_stop single_pass inner lx d (ok (move_on lx 1, d)) (single_stop lx d at) in
      let (lx', d', go, h3) = escaped front (quoted w ++ (39 ∷ 10 ∷ tail)) (fuel - 2) lx d h' in
      let enough : suc (suc (fuel - 2)) ≡ fuel = omega (arith, f, ap length q) in
      let moved =
        move_on-InQuotes (front ++ (39 ∷ [])) (quoted w ++ (39 ∷ 10 ∷ tail)) 39 lx' d' h3 in
      Done-cast (append_assoc front (39 ∷ []) w ∙ ap (λ x. front ++ (x ∷ w)) same)
        (ap (after fuel) step ∙ ap (λ k. after k (ok (move_on lx 1, d))) (sym enough) ∙ go)
        (reads_quoted w (front ++ (39 ∷ [])) tail (suc (room lx')) (fuel - 2) (move_on lx' 1) d' n.1
          (omega (
            arith,
            length-InQuotes (front ++ (39 ∷ [])) (39 ∷ (quoted w ++ (39 ∷ 10 ∷ tail))) lx' d' h3,
            length-append (quoted w) (39 ∷ 10 ∷ tail),
          ))
          (omega (arith, f, ap length q)) moved)
]

drop_front : (xs : List ℕ) (n : ℕ) (ys : List ℕ) → n ≡ length xs → drop n (xs ++ ys) ≡ ys
drop_front xs n ys e = rw e (drop-append xs ys)

until_end : (v : List ℕ) (ys : List ℕ) → NoNul v → until_nul (v ++ (0 ∷ ys)) ≡ v
unfolding until_nul
until_end [] ys n = refl
until_end (c ∷ w) ys n = rw (n.0, until_end w ys n.1) refl

cut_at :
    (pre v rem : List ℕ) (lx : Lexer) (d : ℕ)
    → NoNul v
    → InQuotes (pre ++ v) rem lx d
    → str_at (set_byte (move_on lx 1) d 0) (length pre) ≡ v
unfolding str_at
cut_at pre v rem lx d n h = by_junk h.junk h.some_junk h.amid
  where
    by_junk :
        (junk : List ℕ)
        → 1 ≤ length junk
        → Amid (pre ++ v) junk rem lx d
        → str_at (set_byte (move_on lx 1) d 0) (length pre) ≡ v
    by_junk [] k a = absurd (omega (arith, k))
    by_junk (j ∷ js) k a =
        let cut : set lx.buf d 0 ≡ pre ++ (v ++ (0 ∷ (js ++ rem))) =
          rw (a.buf, a.dest, append_assoc (pre ++ v) (j ∷ js) rem)
            (set_behind (pre ++ v) j 0 (js ++ rem))
          ∙ append_assoc pre v (0 ∷ (js ++ rem)) in
        ap (λ r. until_nul (drop (length pre) r)) cut
        ∙ ap until_nul (drop_front pre (length pre) (v ++ (0 ∷ (js ++ rem))) refl)
        ∙ until_end v (js ++ rem) n

-- The end of `parse_str`: what is done is cut off with a 0.
cut_off :
    (pre v rem : List ℕ) (lx : Lexer) (d : ℕ)
    → NoNul v
    → InQuotes (pre ++ v) (10 ∷ rem) lx d
    → (lx' : Lexer) × (end_str (lx, (d, true)) ≡ ok (lx', tt)) × (str_at lx' (length pre) ≡ v)
unfolding end_str
cut_off pre v rem lx d n h =
    let at : cur lx ≡ 10 = cur-InQuotes (pre ++ v) rem 10 lx d h in
    (set_byte (move_on lx 1) d 0, rw (at, end_str) refl, cut_at pre v (10 ∷ rem) lx d n h)

-- From a buffer with the quoted form of a value without a 0 byte and then a newline, `parse_str` at
-- the place of the quoted form succeeds, and the string from there on is the value.
pub parse_str-quote :
    (pre v tail : List ℕ) (lx : Lexer)
    → lx.buf ≡ pre ++ (quote v ++ (10 ∷ tail))
    → lx.pos ≡ length pre
    → length lx.buf ≤ lx.filled
    → NoNul v
    → (lx' : Lexer) × (parse_str lx lx.pos ≡ ok (lx', tt)) × (str_at lx' (length pre) ≡ v)
unfolding parse_str quote single_quote
parse_str-quote pre v tail lx b p f n =
    let rem = quoted v ++ (39 ∷ 10 ∷ tail) in
    let shown : lx.buf ≡ (pre ++ []) ++ (39 ∷ rem) =
      b
      ∙ ap (λ r. pre ++ (39 ∷ r)) (append_assoc (quoted v) (39 ∷ []) (10 ∷ tail))
      ∙ ap (λ r. r ++ (39 ∷ rem)) (sym (append-nil pre)) in
    let opened : Amid pre [] (39 ∷ rem) lx lx.pos = record {
      buf = shown;
      dest = p;
      pos = omega (arith, p);
      filled = f;
    } in
    let inside : InQuotes pre rem (move_on lx 1) lx.pos = record {
      junk = 39 ∷ [];
      some_junk = omega arith;
      amid = move_on-Amid pre [] rem 39 lx lx.pos opened;
    } in
    let e = str_pass_quote (room lx) lx lx.pos (cur-Amid pre [] rem 39 lx lx.pos opened) in
    let enough : length (quoted v) ≤ room lx = omega (
      arith,
      length-InQuotes pre rem (move_on lx 1) lx.pos inside,
      length-append (quoted v) (39 ∷ 10 ∷ tail),
    ) in
    let (lx2, d2, g, h2) =
      reads_quoted v pre tail (suc (room lx)) (room lx) (move_on lx 1) lx.pos n
        (omega (arith, enough)) enough inside in
    let (lx3, end, read) = cut_off pre v tail lx2 d2 n h2 in
    (lx3, ap (λ r. r >>= end_str) (e ∙ g) ∙ end, read)

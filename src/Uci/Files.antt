-- ===== src/Uci/Files.antt =====
-- The lines of a UCI file are read to their ends, and leave a sound parser (rust/src/uci.rs).
use zte_u60_pro_mu5250_data.Common.{
  ℕ, zero, suc, ◌*◌, ◌≤◌, ◌<◌, true, false, List, [], ◌∷◌, ◌==◌, length, ok, ◌>>=◌, ◌≡◌, refl,
  arith, Bool-cases, inl, inr,
}
use zte_u60_pro_mu5250_data.Uci.Lexer.{Lexer, Parsed, ch, getln, skip_whitespace}
use zte_u60_pro_mu5250_data.Uci.Strings.{is_nil, strtok, room}
use zte_u60_pro_mu5250_data.Uci.Parser.{
  Parser, Command, no_command, comment, package_command, config_command, option_command,
  list_command, invalid_command, command_of, Turn, line_done, turn, take_turn, line_loop, line,
  next_line, parse_loop,
}
use zte_u60_pro_mu5250_data.Uci.Room.{Filled, cut_lengths, cut_some}
use zte_u60_pro_mu5250_data.Uci.Words.{
  Good, Good-bind, Good-widen, room-strtok, strtok-Filled, room-skip_whitespace,
  skip_whitespace-Filled,
}
use zte_u60_pro_mu5250_data.Uci.Sound.{Sound}
use zte_u60_pro_mu5250_data.Uci.Ends.{config-Good, option-Good, package_line-Good}

abbrev GoodTurn : ℕ → Turn → Type 0
GoodTurn n line_done = Unit {0}
GoodTurn n (turn res) = Good Sound n res

take_turn-GoodTurn :
    (c : Command) (p : Parser) (lx : Lexer) (n : ℕ)
    → Filled lx
    → room lx ≤ n
    → Sound p
    → GoodTurn n (take_turn c p lx)
unfolding take_turn
take_turn-GoodTurn no_command p lx n b h w = tt
take_turn-GoodTurn comment p lx n b h w = tt
take_turn-GoodTurn package_command p lx n b h w = package_line-Good p lx n b h w
take_turn-GoodTurn config_command p lx n b h w = config-Good p lx n b h w
take_turn-GoodTurn option_command p lx n b h w = option-Good p lx false n b h w
take_turn-GoodTurn list_command p lx n b h w = option-Good p lx true n b h w
take_turn-GoodTurn invalid_command p lx n b h w = tt

line_loop-Good :
    (fuel : ℕ) (p : Parser) (lx : Lexer)
    → room lx < fuel
    → Filled lx
    → Sound p
    → Good Sound (suc (room lx)) (line_loop fuel p lx)
unfolding line_loop
line_loop-Good zero p lx h b w = absurd (omega (arith, h))
line_loop-Good (suc fuel) p lx h b w =
    let lx' = (strtok lx).0 in
    by_turn (take_turn (command_of (strtok lx).1) p lx')
      (take_turn-GoodTurn (command_of (strtok lx).1) p lx' (room lx) (strtok-Filled lx b)
        (room-strtok lx) w)
      (λ lx'' p' k b' w'.
        Good-widen Sound (suc (room lx'')) (suc (room lx)) (line_loop fuel p' lx'')
          (omega (arith, k)) (line_loop-Good fuel p' lx'' (omega (arith, k, h)) b' w'))
  where
    by_turn :
        (t : Turn)
        → GoodTurn (room lx) t
        → ((lx'' : Lexer) (p' : Parser)
            → room lx'' < room lx
            → Filled lx''
            → Sound p'
            → Good Sound (suc (room lx)) (line_loop fuel p' lx''))
        → Good Sound (suc (room lx)) (elim t as (λ x. Parsed Parser) [
          | line_done ↦ ok ((strtok lx).0, p)
          | turn res ↦ do (lx'', p') ← res; line_loop fuel p' lx''
        ])
    by_turn line_done g f = (strtok-Filled lx b, omega (arith, room-strtok lx), w)
    by_turn (turn res) g f =
        Good-bind Sound Sound (room lx) (suc (room lx)) res _ g
          (λ lx'' p' b' r' w'. f lx'' p' r' b' w')

line-Good : (p : Parser) (lx : Lexer) → Filled lx → Sound p → Good Sound (suc (room lx)) (line p lx)
unfolding line
line-Good p lx b w =
    let lx' = skip_whitespace lx in
    Good-widen Sound (suc (room lx')) (suc (room lx)) (line_loop (suc (room lx')) p lx')
      (omega (arith, room-skip_whitespace lx))
      (line_loop-Good (suc (room lx')) p lx' (omega arith) (skip_whitespace-Filled lx b) w)

-- The next line of the file takes room.
first_line :
    (lx : Lexer)
    → is_nil lx.rest ≡ false
    → Filled (getln (record lx { pos = 0 }) 0)
      × (room (getln (record lx { pos = 0 }) 0) < 2 * length lx.rest)
unfolding getln
first_line lx h = by_rest lx.rest refl h
  where
    by_rest :
        (r : List ℕ)
        → lx.rest ≡ r
        → is_nil r ≡ false
        → Filled (getln (record lx { pos = 0 }) 0)
          × (room (getln (record lx { pos = 0 }) 0) < 2 * length r)
    by_rest [] e k = ground arith
    by_rest (c ∷ more) e k = rw (e, getln) (omega (arith, cut_lengths (c ∷ more), cut_some c more))

next_line-Good :
    (p : Parser) (lx : Lexer)
    → is_nil lx.rest ≡ false
    → Sound p
    → Good Sound (2 * length lx.rest) (next_line p lx)
unfolding next_line
next_line-Good p lx h w =
    let lx' = getln (record lx { pos = 0 }) 0 in
    let (b, r) = first_line lx h in
    elim (Bool-cases (ch lx' 0 == 0)) [
      | inl e ↦ rw e (b, r, w)
      | inr e ↦ rw e (
          Good-widen Sound (suc (room lx')) (2 * length lx.rest) (line p lx') (omega (arith, r))
            (line-Good p lx' b w))
    ]

pub parse_loop-Good :
    (fuel : ℕ) (p : Parser) (lx : Lexer)
    → length lx.rest < fuel
    → Filled lx
    → Sound p
    → Good Sound (suc (room lx)) (parse_loop fuel p lx)
unfolding parse_loop
parse_loop-Good zero p lx h b w = absurd (omega (arith, h))
parse_loop-Good (suc fuel) p lx h b w = elim (Bool-cases (is_nil lx.rest)) [
  | inl e ↦ rw e (b, omega arith, w)
  | inr e ↦ rw e (
      Good-bind Sound Sound (2 * length lx.rest) (suc (room lx)) (next_line p lx) _
        (next_line-Good p lx e w)
        (λ lx' p' b' r' w'.
          Good-widen Sound (suc (room lx')) (suc (room lx)) (parse_loop fuel p' lx')
            (omega (arith, r')) (parse_loop-Good fuel p' lx' (omega (arith, r', h)) b' w')))
]

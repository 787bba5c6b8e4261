-- ===== src/Uci/Package.antt =====
-- Parsing a UCI file ends on every input, and gives a sound package (rust/src/uci.rs).
use zte_u60_pro_mu5250_data.Common.{
  suc, List, length, Result, ok, err, ◌>>=◌, ◌≡◌, ◌≢◌, subst, arith, Bool-cases, inl, inr,
}
use zte_u60_pro_mu5250_data.Uci.Lexer.{Fail, failed, stuck, panicked, Parsed}
use zte_u60_pro_mu5250_data.Uci.Strings.{room}
use zte_u60_pro_mu5250_data.Uci.Parser.{
  Bytes, Section, Parser, parse_loop, parse, has_nul, start_lexer, start_parser,
}
use zte_u60_pro_mu5250_data.Uci.Words.{Good}
use zte_u60_pro_mu5250_data.Uci.Sound.{SoundSections, Sound}
use zte_u60_pro_mu5250_data.Uci.Files.{parse_loop-Good}

-- What parsing can come to: a sound package, or an error with its line.
abbrev Package : Result Fail (List Section) → Type 0
Package (ok sections) = SoundSections sections
Package (err (failed e)) = Unit {0}
Package (err stuck) = ⊥
Package (err panicked) = ⊥

parse-Package : (input : Bytes) → Package (parse input)
unfolding parse
parse-Package input = elim (Bool-cases (has_nul input)) [
  | inl e ↦ rw e tt
  | inr e ↦ rw e (
      ended (parse_loop (suc (length input)) start_parser (start_lexer input)) (
        parse_loop-Good (suc (length input)) start_parser (start_lexer input) (omega arith)
          (omega arith) (record { sections = tt; opened = tt })))
]
  where
    ended :
        (res : Parsed Parser)
        → Good Sound (suc (room (start_lexer input))) res
        → Package (do (lx, p) ← res; ok p.sections)
    ended (ok (lx, p)) g = g.2.sections
    ended (err (failed e)) g = tt
    ended (err stuck) g = g
    ended (err panicked) g = g

-- Parsing ends on every input: the fuel is never spent, and no index is out of bounds.
pub parse_ends : (input : Bytes) → (parse input ≢ err stuck) × (parse input ≢ err panicked)
parse_ends input =
    (λ e. subst Package e (parse-Package input), λ e. subst Package e (parse-Package input))

-- In a package that is parsed every section has a valid type, and a name that is valid and that no
-- other section has, or none; every option has a valid name that no other option of its section has;
-- a text that an option holds is not empty, and neither is a list.
pub parse-SoundSections :
    (input : Bytes) (sections : List Section) → parse input ≡ ok sections → SoundSections sections
parse-SoundSections input sections e = subst Package e (parse-Package input)

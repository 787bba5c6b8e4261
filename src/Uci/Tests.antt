-- ===== src/Uci/Tests.antt =====
-- Runs of the UCI parser on small files, and the theorems at them.
use zte_u60_pro_mu5250_data.Common.{
  ◌++◌, arith, ◌+◌, List, [], ◌∷◌, ◌≡◌, ◌≢◌, refl, ok, err, none, some, true,
}
use zte_u60_pro_mu5250_data.Uci.RoundTrip.{parse_str-quote}
use zte_u60_pro_mu5250_data.Uci.Strings.{parse_str, str_at}
use zte_u60_pro_mu5250_data.Uci.Lexer.{Lexer, stuck, panicked}
use zte_u60_pro_mu5250_data.Uci.Parser.{
  Bytes, Section, parse, single, many, store_value, bytes_eq, add_item, find_section,
}
use zte_u60_pro_mu5250_data.Uci.Show.{quote, get, look_up}
use zte_u60_pro_mu5250_data.Uci.Sound.{SoundSections}
use zte_u60_pro_mu5250_data.Uci.Package.{parse_ends, parse-SoundSections}
use zte_u60_pro_mu5250_data.Uci.Stored.{look_up-store_value}

-- `config a`, then `option b '1'`
abbrev file : Bytes
file = 99 ∷ 32 ∷ 97 ∷ 10 ∷ 111 ∷ 32 ∷ 98 ∷ 32 ∷ 39 ∷ 49 ∷ 39 ∷ 10 ∷ []

abbrev sections : List Section
sections = record { name = none; stype = 97 ∷ []; options = (98 ∷ [], single (49 ∷ [])) ∷ [] } ∷ []

parsed : parse file ≡ ok sections
unfolding parse
parsed = refl

-- `@a[0]` and `b`, with indices of one digit.
got : get (λ i. (i + 48) ∷ []) sections (64 ∷ 97 ∷ 91 ∷ 48 ∷ 93 ∷ []) (98 ∷ []) ≡ some (49 ∷ [])
unfolding get find_section bytes_eq
got = refl

parse_ends_example : (parse file ≢ err stuck) × (parse file ≢ err panicked)
parse_ends_example = parse_ends file

parse-SoundSections_example : SoundSections sections
parse-SoundSections_example = parse-SoundSections file sections parsed

-- `list b 2` behind `option b '1'`
look_up-store_value_example :
    look_up (98 ∷ []) (store_value true (98 ∷ []) (50 ∷ []) ((98 ∷ [], single (49 ∷ [])) ∷ []))
    ≡ some (many ((49 ∷ []) ∷ (50 ∷ []) ∷ []))
unfolding bytes_eq look_up add_item
look_up-store_value_example =
    look_up-store_value true (98 ∷ []) (98 ∷ []) (50 ∷ []) ((98 ∷ [], single (49 ∷ [])) ∷ [])

-- `b 'it'\''s'` in the buffer.
abbrev quoted_line : Lexer
unfolding quote
quoted_line = record {
  rest = [];
  buf = (98 ∷ 32 ∷ []) ++ (quote (105 ∷ 116 ∷ 39 ∷ 115 ∷ []) ++ (10 ∷ []));
  pos = 2;
  filled = 12;
  line = 1;
}

parse_str-quote_example :
    (lx : Lexer) × (parse_str quoted_line 2 ≡ ok (lx, tt))
    × (str_at lx 2 ≡ (105 ∷ 116 ∷ 39 ∷ 115 ∷ []))
unfolding quoted_line
parse_str-quote_example =
    parse_str-quote (98 ∷ 32 ∷ []) (105 ∷ 116 ∷ 39 ∷ 115 ∷ []) [] quoted_line refl refl
      (omega arith) (refl, (refl, (refl, (refl, tt))))

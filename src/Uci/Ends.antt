-- ===== src/Uci/Ends.antt =====
-- Each command of a UCI file is read to its end, and leaves a sound parser (rust/src/uci.rs).
use zte_u60_pro_mu5250_data.Common.{
  ℕ, zero, suc, ◌≤◌, ◌<◌, Bool, true, false, not, Option, none, some, List, [], ◌∷◌, length,
  get_elem?, set, length-append, length-set, if◌then◌else◌, ok, err, ◌>>=◌, ◌≡◌, refl, arith,
  Bool-cases, inl, inr,
}
use zte_u60_pro_mu5250_data.Uci.Lexer.{Lexer, panicked, Parsed, fail, validate_str}
use zte_u60_pro_mu5250_data.Uci.Strings.{is_nil, next_arg, assert_eol, skip_keyword, room}
use zte_u60_pro_mu5250_data.Uci.Parser.{
  Bytes, Section, Parser, find_section, push_section, open_section, reopen, config, store_value,
  store_in, option, package_line, bytes_eq,
}
use zte_u60_pro_mu5250_data.Uci.Room.{Filled}
use zte_u60_pro_mu5250_data.Uci.Words.{
  Good, Good-bind, Good-widen, Any, Word, next_arg-Word, assert_eol-Good, skip_keyword-Good,
}
use zte_u60_pro_mu5250_data.Uci.Sound.{SoundSection, NotIn, Opened, Sound, store_value-SoundOptions}
use zte_u60_pro_mu5250_data.Uci.Sections.{
  find_section-none, find_section_inside, push-SoundSections, set-SoundSections, get-SoundSection,
}

push_section-Sound :
    (p : Parser) (s : Section)
    → SoundSection s
    → NotIn s.name p.sections
    → Sound p
    → Sound (push_section p s)
push_section-Sound p s h n w = record {
  sections = push-SoundSections p.sections s h n w.sections;
  opened = omega (arith, length-append p.sections (s ∷ []));
}

open_section-Good :
    (lx : Lexer) (p : Parser) (stype name : Bytes)
    → Filled lx
    → validate_str stype false false ≡ true
    → Word false true false name
    → Sound p
    → Good Sound (suc (room lx)) (open_section lx p stype name)
unfolding open_section
open_section-Good lx p stype name b v q w = elim (Bool-cases (is_nil name)) [
  | inl e ↦ rw e (
    b,
    omega arith,
    push_section-Sound p (record { name = none; stype = stype; options = [] })
        (record { stype = v; name = tt; options = tt }) tt w,
  )
  | inr e ↦ rw e (by_found (find_section name p.sections) refl e)
]
  where
    by_type :
        (i : ℕ) (s : Section)
        → i < length p.sections
        → Good Sound (suc (room lx)) (reopen lx p stype i s)
    by_type i s h = elim (Bool-cases (bytes_eq s.stype stype)) [
      | inl e ↦ rw e (b, omega arith, record { sections = w.sections; opened = h })
      | inr e ↦ rw e tt
    ]

    by_found :
        (o : Option (ℕ × Section))
        → find_section name p.sections ≡ o
        → is_nil name ≡ false
        → Good Sound (suc (room lx)) (elim o as (λ x. Parsed Parser) [
          | some (i, s) ↦ reopen lx p stype i s
          | none ↦
              ok (lx, push_section p (record { name = some name; stype = stype; options = [] }))
        ])
    by_found none f e = (
      b,
      omega arith,
      push_section-Sound p (record { name = some name; stype = stype; options = [] })
          (record { stype = v; name = (q.valid refl e, e); options = tt })
          (find_section-none name p.sections f) w,
    )
    by_found (some (i, s)) f e = by_type i s (find_section_inside name p.sections i s f)

pub config-Good :
    (p : Parser) (lx : Lexer) (n : ℕ)
    → Filled lx
    → room lx ≤ n
    → Sound p
    → Good Sound n (config p lx)
unfolding config
config-Good p lx n b h w =
    Good-bind Any Sound n n (skip_keyword lx "config without name") _ (skip_keyword-Good lx _ n b h)
      (λ lx1 u b1 r1 t.
        Good-bind (Word true false false) Sound n n (next_arg lx1 true false false) _
          (next_arg-Word lx1 true false false n b1 r1)
          (λ lx2 stype b2 r2 t2. named lx2 stype b2 r2))
  where
    named :
        (lx2 : Lexer) (stype : Bytes)
        → Filled lx2
        → room lx2 < n
        → Good Sound n (
            if not (validate_str stype false false)
            then fail lx2 "invalid character in type field"
            else (do
              (lx3, name) ← next_arg lx2 false true false
              (lx4, v) ← assert_eol lx3
              open_section lx4 p stype name))
    named lx2 stype b2 r2 = elim (Bool-cases (validate_str stype false false)) [
      | inr e ↦ rw e tt
      | inl e ↦ rw e (
          Good-bind (Word false true false) Sound n n (next_arg lx2 false true false) _
            (next_arg-Word lx2 false true false n b2 r2)
            (λ lx3 name b3 r3 q.
              Good-bind Any Sound n n (assert_eol lx3) _ (assert_eol-Good lx3 n b3 r3)
                (λ lx4 u b4 r4 t.
                  Good-widen Sound (suc (room lx4)) n (open_section lx4 p stype name)
                    (omega (arith, r4)) (open_section-Good lx4 p stype name b4 e q w))))
    ]

-- An index inside the list has an element.
inside : (xs : List Section) (i : ℕ) → i < length xs → get_elem? xs i ≡ none → ⊥
inside [] i h e = omega (arith, h)
inside (x ∷ xs) zero h e = ground arith
inside (x ∷ xs) (suc i) h e = inside xs i (omega (arith, h)) e

Opened-inside : (p : Parser) (i : ℕ) → p.current ≡ some i → Opened p → i < length p.sections
Opened-inside p i e o = ground arith

store_in-Good :
    (lx : Lexer) (p : Parser) (i : ℕ) (in_list : Bool) (name value : Bytes)
    → Filled lx
    → i < length p.sections
    → p.current ≡ some i
    → validate_str name true false ≡ true
    → Sound p
    → Good Sound (suc (room lx)) (store_in lx p i in_list name value)
unfolding store_in
store_in-Good lx p i in_list name value b h c v w = by_section (get_elem? p.sections i) refl
  where
    by_section :
        (o : Option Section)
        → get_elem? p.sections i ≡ o
        → Good Sound (suc (room lx)) (elim o as (λ x. Parsed Parser) [
          | none ↦ err panicked
          | some s ↦
              let s' = record s { options = store_value in_list name value s.options } in
              ok (lx, record p { sections = set p.sections i s' })
        ])
    by_section none e = inside p.sections i h e
    by_section (some s) e =
        let old = get-SoundSection p.sections i s e w.sections in
        let s' : Section = record s { options = store_value in_list name value s.options } in
        let sound : SoundSection s' = record {
          stype = old.stype;
          name = old.name;
          options = store_value-SoundOptions in_list name value s.options v old.options;
        } in
        (
          b,
          omega arith,
          record {
            sections = set-SoundSections p.sections i s s' e refl sound w.sections;
            opened = rw (c, length-set p.sections i s') h;
          },
        )

pub option-Good :
    (p : Parser) (lx : Lexer) (in_list : Bool) (n : ℕ)
    → Filled lx
    → room lx ≤ n
    → Sound p
    → Good Sound n (option p lx in_list)
unfolding option
option-Good p lx in_list n b h w = by_current p.current refl
  where
    in_section :
        (i : ℕ)
        → p.current ≡ some i
        → i < length p.sections
        → Good Sound n (do
          (lx1, u) ← skip_keyword lx "option without name"
          (lx2, name) ← next_arg lx1 true true false
          (lx3, value) ← next_arg lx2 false false false
          (lx4, v) ← assert_eol lx3
          store_in lx4 p i in_list name value)
    in_section i c k =
        Good-bind Any Sound n n (skip_keyword lx "option without name") _
          (skip_keyword-Good lx _ n b h)
          (λ lx1 u b1 r1 t1.
            Good-bind (Word true true false) Sound n n (next_arg lx1 true true false) _
              (next_arg-Word lx1 true true false n b1 r1)
              (λ lx2 name b2 r2 q.
                Good-bind (Word false false false) Sound n n (next_arg lx2 false false false) _
                  (next_arg-Word lx2 false false false n b2 r2)
                  (λ lx3 value b3 r3 t3.
                    Good-bind Any Sound n n (assert_eol lx3) _ (assert_eol-Good lx3 n b3 r3)
                      (λ lx4 u4 b4 r4 t4.
                        Good-widen Sound (suc (room lx4)) n (store_in lx4 p i in_list name value)
                          (omega (arith, r4))
                          (store_in-Good lx4 p i in_list name value b4 k c
                            (q.valid refl (q.given refl)) w)))))

    by_current :
        (o : Option ℕ)
        → p.current ≡ o
        → Good Sound n (elim o as (λ x. Parsed Parser) [
          | none ↦ fail lx "option/list command found before the first section"
          | some i ↦ do
            (lx1, u) ← skip_keyword lx "option without name"
            (lx2, name) ← next_arg lx1 true true false
            (lx3, value) ← next_arg lx2 false false false
            (lx4, v) ← assert_eol lx3
            store_in lx4 p i in_list name value
        ])
    by_current none e = tt
    by_current (some i) e = in_section i e (Opened-inside p i e w.opened)

pub package_line-Good :
    (p : Parser) (lx : Lexer) (n : ℕ)
    → Filled lx
    → room lx ≤ n
    → Sound p
    → Good Sound n (package_line p lx)
unfolding package_line
package_line-Good p lx n b h w =
    Good-bind Any Sound n n (skip_keyword lx "package without name") _
      (skip_keyword-Good lx _ n b h)
      (λ lx1 u b1 r1 t1.
        Good-bind (Word true true true) Sound n n (next_arg lx1 true true true) _
          (next_arg-Word lx1 true true true n b1 r1)
          (λ lx2 name b2 r2 q.
            Good-bind Any Sound n n (assert_eol lx2) _ (assert_eol-Good lx2 n b2 r2)
              (λ lx3 v b3 r3 t3. (b3, r3, w))))

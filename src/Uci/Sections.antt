-- ===== src/Uci/Sections.antt =====
-- Adding and changing sections keeps a package sound (rust/src/uci.rs).
use zte_u60_pro_mu5250_data.Common.{
  ℕ, zero, suc, ◌<◌, Bool, true, false, ◌||◌, Option, none, some, List, [], ◌∷◌, ◌++◌, length,
  get_elem?, set, if◌then◌else◌, ◌≡◌, refl, sym, ap, subst, arith, ◌∙◌,
}
use zte_u60_pro_mu5250_data.Uci.Parser.{Bytes, Section, bytes_eq, is_named, find_section}
use zte_u60_pro_mu5250_data.Uci.Sound.{SoundSection, has_name, NotIn, SoundSections, bytes_eq_sym}

has_name-push :
    (name : Bytes) (sections : List Section) (s : Section)
    → has_name name (sections ++ s ∷ []) ≡ (has_name name sections || is_named name s)
has_name-push name [] s = ground arith
has_name-push name (t ∷ more) s = ground (arith, has_name-push name more s)

pub find_section-none :
    (name : Bytes) (sections : List Section)
    → find_section name sections ≡ none
    → has_name name sections ≡ false
unfolding find_section
find_section-none name [] h = refl
find_section-none name (s ∷ more) h =
    by_later (is_named name s) (find_section name more) (find_section-none name more) h
  where
    by_later :
        (b : Bool) (o : Option (ℕ × Section))
        → (o ≡ none → has_name name more ≡ false)
        → (if b then some (0, s) else elim o as (λ x. Option (ℕ × Section)) [
          | none ↦ none
          | some (i, t) ↦ some (suc i, t)
        ])
          ≡ none
        → (b || has_name name more) ≡ false
    by_later true o f e = ground arith
    by_later false none f e = f refl
    by_later false (some x) f e = ground arith

pub find_section_inside :
    (name : Bytes) (sections : List Section) (i : ℕ) (s : Section)
    → find_section name sections ≡ some (i, s)
    → i < length sections
unfolding find_section
find_section_inside name [] i s h = ground arith
find_section_inside name (t ∷ more) i s h =
    by_later (is_named name t) (find_section name more) (find_section_inside name more) h
  where
    by_later :
        (b : Bool) (o : Option (ℕ × Section))
        → ((j : ℕ) (u : Section) → o ≡ some (j, u) → j < length more)
        → (if b then some (0, t) else elim o as (λ x. Option (ℕ × Section)) [
          | none ↦ none
          | some (j, u) ↦ some (suc j, u)
        ])
          ≡ some (i, s)
        → i < suc (length more)
    by_later true o f e = ground arith
    by_later false none f e = ground arith
    by_later false (some (j, u)) f e = ground (arith, f j u refl)

NotIn-none : (n : Option Bytes) → NotIn n []
NotIn-none none = tt
NotIn-none (some m) = refl

NotIn-more :
    (n : Option Bytes) (t : Section) (more : List Section) → NotIn n (t ∷ more) → NotIn n more
NotIn-more none t more h = tt
NotIn-more (some m) t more h = ground arith

named_apart :
    (m a : Bytes) (t : Section) (more : List Section)
    → t.name ≡ some m
    → NotIn (some a) (t ∷ more)
    → bytes_eq m a ≡ false
named_apart m a t more e l = let k : is_named a t ≡ bytes_eq m a = rw e refl in ground arith

push-NotIn :
    (n : Option Bytes) (more : List Section) (t s : Section)
    → t.name ≡ n
    → NotIn n more
    → NotIn s.name (t ∷ more)
    → NotIn n (more ++ s ∷ [])
push-NotIn none more t s e h k = tt
push-NotIn (some m) more t s e h k = has_name-push m more s ∙ rw h (by_name s.name k)
  where
    by_name :
        (x : Option Bytes)
        → NotIn x (t ∷ more)
        → elim x as (λ u. Bool) [ none ↦ false | some a ↦ bytes_eq a m ] ≡ false
    by_name none l = refl
    by_name (some a) l = bytes_eq_sym a m ∙ named_apart m a t more e l

pub push-SoundSections :
    (sections : List Section) (s : Section)
    → SoundSection s
    → NotIn s.name sections
    → SoundSections sections
    → SoundSections (sections ++ s ∷ [])
push-SoundSections [] s h n w = (h, NotIn-none s.name, tt)
push-SoundSections (t ∷ more) s h n w = (
  w.0,
  push-NotIn t.name more t s refl w.1 n,
  push-SoundSections more s h (NotIn-more s.name t more n) w.2,
)

-- The section at an index is changed to one of the same name.
set-NotIn :
    (n : Option Bytes) (sections : List Section) (i : ℕ) (s s' : Section)
    → get_elem? sections i ≡ some s
    → s'.name ≡ s.name
    → NotIn n sections
    → NotIn n (set sections i s')
set-NotIn none sections i s s' g e h = tt
set-NotIn (some m) [] i s s' g e h = h
set-NotIn (some m) (t ∷ more) zero s s' g e h =
    let same : t ≡ s = cc in
    let k : s'.name ≡ t.name = e ∙ ap (λ (u : Section). u.name) (sym same) in rw k h
set-NotIn (some m) (t ∷ more) (suc i) s s' g e h =
    ground (arith, set-NotIn (some m) more i s s' g e)

pub set-SoundSections :
    (sections : List Section) (i : ℕ) (s s' : Section)
    → get_elem? sections i ≡ some s
    → s'.name ≡ s.name
    → SoundSection s'
    → SoundSections sections
    → SoundSections (set sections i s')
set-SoundSections [] i s s' g e h w = w
set-SoundSections (t ∷ more) zero s s' g e h w =
    let same : t ≡ s = cc in
    let k : s'.name ≡ t.name = e ∙ ap (λ (u : Section). u.name) (sym same) in (h, rw k w.1, w.2)
set-SoundSections (t ∷ more) (suc i) s s' g e h w =
    (w.0, set-NotIn t.name more i s s' g e w.1, set-SoundSections more i s s' g e h w.2)

pub get-SoundSection :
    (sections : List Section) (i : ℕ) (s : Section)
    → get_elem? sections i ≡ some s
    → SoundSections sections
    → SoundSection s
get-SoundSection [] i s g w = ground arith
get-SoundSection (t ∷ more) zero s g w = let same : t ≡ s = cc in subst SoundSection same w.0
get-SoundSection (t ∷ more) (suc i) s g w = get-SoundSection more i s g w.2

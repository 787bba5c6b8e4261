-- ===== src/Uci/Room.antt =====
-- The loops of the UCI lexer end: each pass of a loop leaves less room (rust/src/uci.rs).
use zte_u60_pro_mu5250_data.Common.{
  ℕ, zero, suc, ◌+◌, ◌≤◌, ◌<◌, String, Bool, true, false, ◌&&◌, ◌||◌, List, [], ◌∷◌, ◌==◌, length,
  take, get_elem?, length-append, length-set, unwrap_or, if◌then◌else◌, ok, err, ◌>>=◌, ◌≡◌, refl,
  arith, Bool-cases, ◌⊎◌, inl, inr,
}
use zte_u60_pro_mu5250_data.Uci.Lexer.{
  Lexer, failed, stuck, panicked, Parsed, ch, cur, move_on, getln, cut_line, addc, backslash,
  squote, dquote, backslash_byte, newline,
}
use zte_u60_pro_mu5250_data.Uci.Strings.{
  room, Pass, again, stop, passes, after_backslash, refill, double_pass, single_pass,
}

-- The end of the buffer when it was last filled is not before its end now.
abbrev pub Filled : Lexer → Type 0
Filled lx = length lx.buf ≤ lx.filled

-- It has ended, with at most the room `n` left if it goes on.
abbrev pub Within : {A : Type 0} → ℕ → Parsed A → Type 0
Within n (ok (lx, a)) = Filled lx × (room lx ≤ n)
Within n (err (failed e)) = Unit {0}
Within n (err stuck) = ⊥
Within n (err panicked) = ⊥

-- A further pass has less room.
abbrev pub Shrinks : {A : Type 0} → ℕ → Pass A → Type 0
Shrinks n (again lx dest) = Filled lx × (room lx < n)
Shrinks n (stop res) = Within n res

pub widen : {A : Type 0} (n m : ℕ) (res : Parsed A) → n ≤ m → Within n res → Within m res
widen n m (ok (lx, a)) h w = omega arith
widen n m (err (failed e)) h w = tt
widen n m (err stuck) h w = w
widen n m (err panicked) h w = w

pub Within-bind :
    {A B : Type 0} (n m : ℕ) (res : Parsed A) (k : Lexer × A → Parsed B)
    → Within n res
    → ((lx : Lexer) (a : A) → Filled lx → room lx ≤ n → Within m (k (lx, a)))
    → Within m (res >>= k)
Within-bind n m (ok (lx, a)) k w f = f lx a w.0 w.1
Within-bind n m (err (failed e)) k w f = tt
Within-bind n m (err stuck) k w f = w
Within-bind n m (err panicked) k w f = w

pub passes-Within :
    {A : Type 0} (pass : Lexer → ℕ → Pass A)
    → ((lx : Lexer) (dest : ℕ) → Filled lx → Shrinks (room lx) (pass lx dest))
    → (fuel : ℕ) (lx : Lexer) (dest : ℕ) → room lx < fuel
    → Filled lx
    → Within (room lx) (passes pass fuel lx dest)
unfolding passes
passes-Within {A} pass f zero lx dest h b = absurd (omega (arith, h))
passes-Within {A} pass f (suc fuel) lx dest h b =
    by_pass (pass lx dest) (f lx dest b)
      (λ lx' d s. passes-Within pass f fuel lx' d (omega (arith, s, h)) s.0)
  where
    by_pass :
        (p : Pass A)
        → Shrinks (room lx) p
        → ((lx' : Lexer) (d : ℕ)
            → Filled lx' × (room lx' < room lx)
            → Within (room lx') (passes pass fuel lx' d))
        → Within (room lx) (elim p as (λ x. Parsed A) [
          | again lx' dest' ↦ passes pass fuel lx' dest'
          | stop res ↦ res
        ])
    by_pass (again lx' dest') s rest =
        widen (room lx') (room lx) (passes pass fuel lx' dest') (omega (arith, s))
          (rest lx' dest' s)
    by_pass (stop res) s rest = s

-- A byte that is not 0 is in the buffer.
pub byte_inside :
    (xs : List ℕ) (i : ℕ) → (unwrap_or (get_elem? xs i) 0 == 0) ≡ false → i < length xs
byte_inside [] i h = ground arith
byte_inside (x ∷ xs) zero h = omega arith
byte_inside (x ∷ xs) (suc i) h = omega (arith, byte_inside xs i h)

take_end : (xs : List ℕ) (n : ℕ) → (unwrap_or (get_elem? (take n xs) n) 0) ≡ 0
take_end xs zero = refl
take_end [] (suc n) = refl
take_end (x ∷ xs) (suc n) = take_end xs n

length-take_le : (xs : List ℕ) (n : ℕ) → (length (take n xs) ≤ n) × (length (take n xs) ≤ length xs)
length-take_le xs zero = omega arith
length-take_le [] (suc n) = omega arith
length-take_le (x ∷ xs) (suc n) = omega (arith, length-take_le xs n)

pub cut_lengths : (xs : List ℕ) → length (cut_line xs).0 + length (cut_line xs).1 ≡ length xs
unfolding cut_line
cut_lengths [] = refl
cut_lengths (c ∷ more) = ground (arith, cut_lengths more)

pub cut_some : (c : ℕ) (more : List ℕ) → 1 ≤ length (cut_line (c ∷ more)).0
unfolding cut_line
cut_some c more = ground arith

-- Reading on at the place of the lexer: it stays there, and either nothing is left to read and the
-- buffer ends there, or there is less room.
record Read (lx lx' : Lexer) : Type 0 where
  filled : Filled lx'
  shrinks : (room lx' < room lx) ⊎ ((room lx' ≡ room lx) × (cur lx' ≡ 0))

getln-Read : (lx : Lexer) → Filled lx → Read lx (getln lx lx.pos)
unfolding getln
getln-Read lx b = by_rest lx.rest refl
  where
    by_rest : (r : List ℕ) → lx.rest ≡ r → Read lx (getln lx lx.pos)
    by_rest [] e =
        rw (e, getln) (ground (arith, take_end lx.buf lx.pos, length-take_le lx.buf lx.pos))
    by_rest (c ∷ more) e =
        rw (e, getln)
          (record {
            filled = omega arith;
            shrinks = inl (
                omega (
                  arith,
                  length-append (take lx.pos lx.buf) (cut_line (c ∷ more)).0,
                  cut_lengths (c ∷ more),
                  cut_some c more,
                  length-take_le lx.buf lx.pos,
                ));
          })

pub addc-Room :
    (lx : Lexer) (dest : ℕ)
    → Filled lx
    → (cur lx == 0) ≡ false
    → Filled (addc lx dest).0 × (room (addc lx dest).0 < room lx)
unfolding addc
addc-Room lx dest b h = omega (arith, length-set lx.buf dest (cur lx), byte_inside lx.buf lx.pos h)

-- A byte is left behind.
pub move_on-Room : (lx : Lexer) → Filled lx → (cur lx == 0) ≡ false → room (move_on lx 1) < room lx
move_on-Room lx b h = omega (arith, byte_inside lx.buf lx.pos h)

-- A pair of a lexer and a target with less room.
abbrev pub Less : ℕ → Lexer × ℕ → Type 0
Less n (lx, dest) = Filled lx × (room lx < n)

-- What a backslash leaves, and whether a byte is taken next.
Slashed : ℕ → Lexer × Bool → Type 0
Slashed n (lx, literal) = Filled lx × (room lx < n) × (literal ≡ true → (cur lx == 0) ≡ false)

backslash-Slashed :
    (lx : Lexer) → Filled lx → (cur lx == 0) ≡ false → Slashed (room lx) (backslash lx)
unfolding backslash Slashed
backslash-Slashed lx b h =
    let lx' = move_on lx 1 in
    let less = move_on-Room lx b h in
    elim (Bool-cases (
      cur lx' == 0
      || cur lx' == newline
      || cur lx' == 13 && ch lx' (lx'.pos + 1) == newline && ch lx' (lx'.pos + 2) == 0)) [
        | inl e ↦ rw e (ground (arith, getln-Read lx' b, less))
        | inr e ↦ rw e (b, less, λ x. ground arith)
      ]

addc-Less :
    (lx : Lexer) (dest n : ℕ)
    → Filled lx
    → room lx < n
    → (cur lx == 0) ≡ false
    → Less n (addc lx dest)
addc-Less lx dest n b l h = omega (arith, addc-Room lx dest b h)

pub after_backslash-Less :
    (lx : Lexer) (dest : ℕ)
    → Filled lx
    → (cur lx == 0) ≡ false
    → Less (room lx) (after_backslash lx dest)
unfolding after_backslash Slashed
after_backslash-Less lx dest b h = by_literal (backslash lx) (backslash-Slashed lx b h)
  where
    by_literal :
        (r : Lexer × Bool)
        → Slashed (room lx) r
        → Less (room lx) (if r.1 then addc r.0 dest else (r.0, dest))
    by_literal (lx', true) s = addc-Less lx' dest (room lx) s.0 s.1 (s.2 refl)
    by_literal (lx', false) s = omega (arith, s)

refill-Shrinks :
    (reason : String) (lx : Lexer) (dest : ℕ)
    → Filled lx
    → Shrinks (room lx) (refill reason lx dest)
unfolding refill
refill-Shrinks reason lx dest b = elim (Bool-cases (cur (getln lx lx.pos) == 0)) [
  | inl e ↦ rw e tt
  | inr e ↦ rw e (ground (arith, getln-Read lx b))
]

pub double_pass-Shrinks :
    (lx : Lexer) (dest : ℕ) → Filled lx → Shrinks (room lx) (double_pass lx dest)
unfolding double_pass
double_pass-Shrinks lx dest b = elim (Bool-cases (cur lx == dquote)) [
  | inl e ↦ rw e (omega (arith, b))
  | inr e ↦ rw e (elim (Bool-cases (cur lx == 0)) [
    | inl z ↦ rw z (refill-Shrinks _ lx dest b)
    | inr z ↦ rw z (elim (Bool-cases (cur lx == backslash_byte)) [
      | inl x ↦ rw x (after_backslash-Less lx dest b z)
      | inr x ↦ rw x (addc-Room lx dest b z)
    ])
  ])
]

pub single_pass-Shrinks :
    (lx : Lexer) (dest : ℕ) → Filled lx → Shrinks (room lx) (single_pass lx dest)
unfolding single_pass
single_pass-Shrinks lx dest b = elim (Bool-cases (cur lx == squote)) [
  | inl e ↦ rw e (omega (arith, b))
  | inr e ↦ rw e (elim (Bool-cases (cur lx == 0)) [
    | inl z ↦ rw z (refill-Shrinks _ lx dest b)
    | inr z ↦ rw z (addc-Room lx dest b z)
  ])
]

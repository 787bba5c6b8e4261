-- ===== src/Uci/Lexer.antt =====
-- The buffer of one line that a UCI file is read through, and what reads words from it in place
-- (rust/src/uci.rs). A byte is a number below 256. `rest` is the input from `ipos` on.

use zte_u60_pro_mu5250_data.Common.{
  ℕ, suc, ◌+◌, String, Bool, true, false, ◌&&◌, ◌||◌, not, List, [], ◌∷◌, ◌++◌, ◌==◌, leb, length,
  take, drop, get_elem?, set, unwrap_or, if◌then◌else◌, Result, err,
}

abbrev pub newline : ℕ
newline = 10

abbrev pub squote : ℕ
squote = 39

abbrev pub dquote : ℕ
dquote = 34

abbrev pub hash : ℕ
hash = 35

abbrev pub semicolon : ℕ
semicolon = 59

abbrev pub backslash_byte : ℕ
backslash_byte = 92

abbrev pub is_space : ℕ → Bool
is_space c = c == 32 || c == 9 || c == 10 || c == 11 || c == 12 || c == 13

abbrev pub between : ℕ → ℕ → ℕ → Bool
between lo hi c = leb lo c && leb c hi

abbrev pub is_alphanumeric : ℕ → Bool
is_alphanumeric c = between 48 57 c || between 65 90 c || between 97 122 c

abbrev pub good_byte : Bool → Bool → ℕ → Bool
good_byte name packed c =
    is_alphanumeric c || c == 95 || c == 45 && packed || not name && between 33 126 c

abbrev all_good : Bool → Bool → List ℕ → Bool
all_good name packed [] = true
all_good name packed (c ∷ more) = good_byte name packed c && all_good name packed more

unfoldable pub validate_str : List ℕ → Bool → Bool → Bool
validate_str [] name packed = false
validate_str (c ∷ more) name packed = all_good name packed (c ∷ more)

pub record Lexer : Type 0 where
  pub rest : List ℕ
  pub buf : List ℕ
  pub pos : ℕ
  pub filled : ℕ
  pub line : ℕ

pub record ParseError : Type 0 where
  pub line : ℕ
  pub reason : String

-- `stuck` stands for fuel that is spent, `panicked` for an index out of bounds.
pub data Fail : Type 0 where
  failed : ParseError → Fail
  stuck panicked : Fail

abbrev pub Parsed : Type 0 → Type 0
Parsed A = Result Fail (Lexer × A)

abbrev pub ch : Lexer → ℕ → ℕ
ch lx i = unwrap_or (get_elem? lx.buf i) 0

abbrev pub cur : Lexer → ℕ
cur lx = ch lx lx.pos

abbrev pub set_byte : Lexer → ℕ → ℕ → Lexer
set_byte lx i c = record lx { buf = set lx.buf i c }

abbrev pub move_on : Lexer → ℕ → Lexer
move_on lx n = record lx { pos = lx.pos + n }

abbrev pub fail : {A : Type 0} → Lexer → String → Result Fail A
fail lx reason = err (failed (record { line = lx.line; reason = reason }))

-- The first line, with its newline, and what follows it.
unfoldable pub cut_line : List ℕ → List ℕ × List ℕ
cut_line [] = ([], [])
cut_line (c ∷ more) =
    let (row, rest) = cut_line more in if c == newline then (c ∷ [], more) else (c ∷ row, rest)

unfoldable pub ends_line : List ℕ → Bool
ends_line [] = false
ends_line (c ∷ []) = c == newline
ends_line (c ∷ d ∷ more) = ends_line (d ∷ more)

unfoldable pub getln : Lexer → ℕ → Lexer
unfolding cut_line ends_line
getln lx offset =
    let kept = take offset lx.buf in
    elim lx.rest [
      | [] ↦ record lx { buf = kept }
      | c ∷ more ↦
          let (row, rest) = cut_line (c ∷ more) in
          let buf = kept ++ row in
          record lx {
            rest = rest;
            buf = buf;
            filled = length buf;
            line = (if ends_line buf then lx.line + 1 else lx.line);
          }
    ]

unfoldable pub spaces : List ℕ → ℕ
spaces [] = 0
spaces (c ∷ more) = let n = spaces more in if is_space c then suc n else 0

unfoldable pub skip_whitespace : Lexer → Lexer
unfolding spaces
skip_whitespace lx = move_on lx (spaces (drop lx.pos lx.buf))

unfoldable pub addc : Lexer → ℕ → Lexer × ℕ
addc lx dest = (move_on (set_byte lx dest (cur lx)) 1, dest + 1)

-- Whether the byte behind the backslash is taken as it is.
unfoldable pub backslash : Lexer → Lexer × Bool
unfolding getln
backslash lx =
    let lx' = move_on lx 1 in
    let c = cur lx' in
    if c == 0
      || c == newline
      || c == 13 && ch lx' (lx'.pos + 1) == newline && ch lx' (lx'.pos + 2) == 0
    then (getln lx' lx'.pos, false)
    else (lx', true)

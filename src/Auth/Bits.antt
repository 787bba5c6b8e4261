-- ===== src/Auth/Bits.antt =====
-- `secure_eq` (rust/src/auth.rs): the comparison of two texts byte by byte, by exclusive or.
use zte_u60_pro_mu5250_data.Common.{
  ℕ, zero, suc, ◌/◌, ◌%◌, ◌≤◌, Bool, true, ◌&&◌, List, [], ◌∷◌, ◌==◌, length, max, ◌≡◌, ◌↔◌, refl,
  sym, ap, subst, ◌∙◌, arith,
}
use Prim.Native.Nat.{bit_or, bit_xor, bit_or-bitwise, bit_xor-bitwise, digits, differ}

-- The fold of `secure_eq`, from `diff` on.
unfoldable pub fold_diff : ℕ → List ℕ → List ℕ → ℕ
fold_diff diff (x ∷ a) (y ∷ b) = fold_diff (bit_or diff (bit_xor x y)) a b
fold_diff diff _ _ = diff

unfoldable pub secure_eq : List ℕ → List ℕ → Bool
unfolding fold_diff
secure_eq a b = (length a == length b) && (fold_diff 0 a b == 0)

differ_zero : (x y : ℕ) → differ x y ≡ 0 → x ≡ y
differ_zero zero y h = sym h
differ_zero (suc x) zero h = h
differ_zero (suc x) (suc y) h = ap suc (differ_zero x y h)

differ_same : (x : ℕ) → differ x x ≡ 0
differ_same zero = refl
differ_same (suc x) = differ_same x

xor_digits : (n a b : ℕ) → a ≤ n → digits (λ c. c) differ n a b ≡ 0 → a ≡ b
xor_digits zero zero b h e = sym e
xor_digits zero (suc a) b h e = elim h [ ]
xor_digits (suc n) zero b h e = sym e
xor_digits (suc n) (suc a) b h e =
    let low = differ_zero (suc a % 2) (b % 2) (omega arith) in
    let high = xor_digits n (suc a / 2) (b / 2) (omega arith) (omega arith) in omega arith

xor_digits_same : (n a : ℕ) → a ≤ n → digits (λ c. c) differ n a a ≡ 0
xor_digits_same zero zero h = refl
xor_digits_same zero (suc a) h = elim h [ ]
xor_digits_same (suc n) zero h = refl
xor_digits_same (suc n) (suc a) h =
    omega (arith, differ_same (suc a % 2), xor_digits_same n (suc a / 2) (omega arith))

or_digits : (n a b : ℕ) → a ≤ n → digits (λ c. c) max n a b ≡ 0 → (a ≡ 0) × (b ≡ 0)
or_digits zero zero b h e = (refl, e)
or_digits zero (suc a) b h e = elim h [ ]
or_digits (suc n) zero b h e = (refl, e)
or_digits (suc n) (suc a) b h e =
    let high = or_digits n (suc a / 2) (b / 2) (omega arith) (omega arith) in omega arith

bit_xor_zero : (x y : ℕ) → bit_xor x y ≡ 0 → x ≡ y
bit_xor_zero x y h = xor_digits x x y (omega arith) (sym (bit_xor-bitwise x y) ∙ h)

bit_xor_same : (x : ℕ) → bit_xor x x ≡ 0
bit_xor_same x = bit_xor-bitwise x x ∙ xor_digits_same x x (omega arith)

bit_or_zero : (x y : ℕ) → bit_or x y ≡ 0 → (x ≡ 0) × (y ≡ 0)
bit_or_zero x y h = or_digits x x y (omega arith) (sym (bit_or-bitwise x y) ∙ h)

fold_diff_equal :
    (diff : ℕ) (a b : List ℕ) → length a ≡ length b → fold_diff diff a b ≡ 0 → (diff ≡ 0) × (a ≡ b)
unfolding fold_diff
fold_diff_equal diff [] [] l h = (h, refl)
fold_diff_equal diff [] (y ∷ b) l h = ground arith
fold_diff_equal diff (x ∷ a) [] l h = ground arith
fold_diff_equal diff (x ∷ a) (y ∷ b) l h =
    let (d, e) = fold_diff_equal (bit_or diff (bit_xor x y)) a b (omega arith) h in
    let (z, q) = bit_or_zero diff (bit_xor x y) d in (z, cc (bit_xor_zero x y q))

fold_diff_same : (a : List ℕ) → fold_diff 0 a a ≡ 0
unfolding fold_diff
fold_diff_same [] = refl
fold_diff_same (x ∷ a) =
    ap (λ d. fold_diff d a a) (ap (bit_or 0) (bit_xor_same x) ∙ refl) ∙ fold_diff_same a

-- The comparison byte by byte says whether the texts are equal.
pub secure_eq_iff : (a b : List ℕ) → (secure_eq a b ≡ true) ↔ (a ≡ b)
unfolding secure_eq
secure_eq_iff a b = (equal, λ e. subst (λ c. secure_eq a c ≡ true) e same)
  where
    equal : (length a == length b) && (fold_diff 0 a b == 0) ≡ true → a ≡ b
    equal h = (fold_diff_equal 0 a b (ground arith) (ground arith)).1

    same : secure_eq a a ≡ true
    same = ground (arith, fold_diff_same a)

-- ===== src/Emporium/Bytes.antt =====
-- Bytes, and numbers written in them.
use go_sdk_test.Common.{
  ℕ, zero, suc, ◌+◌, ◌*◌, ◌/◌, ◌%◌, ◌^◌, ◌<◌, ◌≡◌, refl, ap, ◌∙◌, List, [], ◌∷◌, ◌++◌, length,
  length-append, take, drop, arith,
}
use native.Mathlib.Nat.{pow-suc}
use go_sdk_test.Emporium.{fill_bytes, set_bytes, byte_at}

abbrev pub AreBytes : List ℕ → Type 0
AreBytes [] = Unit {0}
AreBytes (b ∷ bs) = (b < 256) × AreBytes bs

pub AreBytes-append : (xs ys : List ℕ) → AreBytes xs → AreBytes ys → AreBytes (xs ++ ys)
AreBytes-append [] ys hx hy = hy
AreBytes-append (b ∷ bs) ys (lt, hx) hy = (lt, AreBytes-append bs ys hx hy)

pub fill_bytes-AreBytes : (width n : ℕ) → AreBytes (fill_bytes width n)
unfolding fill_bytes
fill_bytes-AreBytes zero n = tt
fill_bytes-AreBytes (suc width) n =
    AreBytes-append (fill_bytes width (n / 256)) _ (fill_bytes-AreBytes width (n / 256))
      (omega arith, tt)

pub length-fill_bytes : (width n : ℕ) → length (fill_bytes width n) ≡ width
unfolding fill_bytes
length-fill_bytes zero n = refl
length-fill_bytes (suc width) n =
    length-append (fill_bytes width (n / 256)) _ ∙ omega (arith, length-fill_bytes width (n / 256))

set_bytes-append :
    (acc : ℕ) (xs ys : List ℕ) → set_bytes acc (xs ++ ys) ≡ set_bytes (set_bytes acc xs) ys
unfolding set_bytes
set_bytes-append acc [] ys = refl
set_bytes-append acc (x ∷ xs) ys = set_bytes-append (acc * 256 + x) xs ys

-- SetBytes undoes FillBytes on a number that has room.
pub set-fill_bytes : (width n : ℕ) → n < 256 ^ width → set_bytes 0 (fill_bytes width n) ≡ n
unfolding set_bytes fill_bytes
set-fill_bytes zero n lt = omega arith
set-fill_bytes (suc width) n lt =
    let room : 256 ^ suc width ≡ 256 ^ width * 256 = pow-suc 256 width in
    set_bytes-append 0 (fill_bytes width (n / 256)) _
    ∙ ap (λ h. h * 256 + n % 256) (set-fill_bytes width (n / 256) (omega arith))
    ∙ omega arith

-- The parts of bytes whose first part has a known length.
pub take-prefix : (xs ys : List ℕ) → take (length xs) (xs ++ ys) ≡ xs
take-prefix [] ys = refl
take-prefix (x ∷ xs) ys = ap (λ t. x ∷ t) (take-prefix xs ys)

pub drop-prefix : (xs ys : List ℕ) → drop (length xs) (xs ++ ys) ≡ ys
drop-prefix [] ys = refl
drop-prefix (x ∷ xs) ys = drop-prefix xs ys

pub byte_at-prefix : (xs : List ℕ) (b : ℕ) (ys : List ℕ) → byte_at (length xs) (xs ++ b ∷ ys) ≡ b
unfolding byte_at
byte_at-prefix [] b ys = refl
byte_at-prefix (x ∷ xs) b ys = byte_at-prefix xs b ys

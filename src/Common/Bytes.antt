-- ===== src/Common/Bytes.antt =====
-- Buffers as lists of bytes, and unsigned big-endian numbers in them.
use Prim.Native.Nat.{ℕ, zero, suc, ◌+◌, ◌-◌, ◌*◌, ◌/◌, ◌%◌, ◌^◌, ◌<◌, ◌≤◌, min}
use mathlib.Core.Path.{◌≡◌, refl, ap}
use mathlib.Core.List.{List, [], ◌∷◌, ◌++◌}
use native.Mathlib.Omega.{arith}
use native.Mathlib.Nat.{pow-suc}
use mathlib.Core.Logic.{◌↔◌}
use mathlib.Core.Bool.{Bool, true, false, ◌&&◌, ◌||◌}
use liop.Common.Tests.{eqb, StrictEq}
use liop.Common.Lists.{length, length-append, take, drop}

-- `buf.writeUIntBE(n, offset, k)` of a number that fits: `k` bytes, the highest first.
unfoldable pub to_be : ℕ → ℕ → List ℕ
to_be zero n = []
to_be (suc k) n = to_be k (n / 256) ++ n % 256 ∷ []

-- `buf.readUIntBE(offset, k)` on the bytes themselves.
unfoldable pub from_be : ℕ → List ℕ → ℕ
from_be acc [] = acc
from_be acc (b ∷ bs) = from_be (acc * 256 + b) bs

pub length-to_be : (k n : ℕ) → length (to_be k n) ≡ k
unfolding to_be
length-to_be zero n = refl
length-to_be (suc k) n =
    omega (arith, length-append (to_be k (n / 256)) (n % 256 ∷ []), length-to_be k (n / 256))

from_be-append : (acc b : ℕ) (bs : List ℕ) → from_be acc (bs ++ b ∷ []) ≡ from_be acc bs * 256 + b
unfolding from_be
from_be-append acc b [] = refl
from_be-append acc b (c ∷ bs) = from_be-append (acc * 256 + c) b bs

div_fits : (k n : ℕ) → n < 256 ^ suc k → n / 256 < 256 ^ k
div_fits k n h = omega (arith, pow-suc 256 k)

pub from_be-to_be : (k n : ℕ) → n < 256 ^ k → from_be 0 (to_be k n) ≡ n
unfolding to_be from_be
from_be-to_be zero n h = omega arith
from_be-to_be (suc k) n h = omega (
  arith,
  from_be-append 0 (n % 256) (to_be k (n / 256)),
  from_be-to_be k (n / 256) (div_fits k n h),
)

-- Reading what stands in front, of which the length is known.
pub take_front : (n : ℕ) (xs ys : List ℕ) → length xs ≡ n → take n (xs ++ ys) ≡ xs
take_front zero [] ys h = refl
take_front (suc n) (x ∷ xs) ys h = ap (λ t. x ∷ t) (take_front n xs ys (omega arith))
take_front zero (x ∷ xs) ys h = absurd (omega arith)
take_front (suc n) [] ys h = absurd (omega arith)

pub drop_front : (n : ℕ) (xs ys : List ℕ) → length xs ≡ n → drop n (xs ++ ys) ≡ ys
drop_front zero [] ys h = refl
drop_front (suc n) (x ∷ xs) ys h = drop_front n xs ys (omega arith)
drop_front zero (x ∷ xs) ys h = absurd (omega arith)
drop_front (suc n) [] ys h = absurd (omega arith)

-- `buf.subarray(a, b)`
abbrev pub subarray : ℕ → ℕ → List ℕ → List ℕ
subarray a b xs = take (b - a) (drop a xs)

-- `buf[i]`, where it is in the buffer.
abbrev pub byte_at : ℕ → List ℕ → ℕ
byte_at i [] = 0
byte_at zero (b ∷ bs) = b
byte_at (suc i) (b ∷ bs) = byte_at i bs

-- `buf.readUIntBE(offset, k)`
abbrev pub read_be : ℕ → ℕ → List ℕ → ℕ
read_be k offset xs = from_be 0 (take k (drop offset xs))

-- `crypto.timingSafeEqual(a, b)` on buffers of one length, and `a.equals(b)`.
unfoldable pub bytes_eq : List ℕ → List ℕ → Bool
bytes_eq [] [] = true
bytes_eq [] (y ∷ ys) = false
bytes_eq (x ∷ xs) [] = false
bytes_eq (x ∷ xs) (y ∷ ys) = eqb x y && bytes_eq xs ys

pub bytes_eq_iff : (xs ys : List ℕ) → (bytes_eq xs ys ≡ true) ↔ (xs ≡ ys)
unfolding bytes_eq
bytes_eq_iff [] [] = ground arith
bytes_eq_iff [] (y ∷ ys) = ground arith
bytes_eq_iff (x ∷ xs) [] = ground arith
bytes_eq_iff (x ∷ xs) (y ∷ ys) = ground (arith, bytes_eq_iff xs ys)

-- Going on behind what stands in front.
pub drop_skip : (n m : ℕ) (xs ys : List ℕ) → n ≡ length xs + m → drop n (xs ++ ys) ≡ drop m ys
drop_skip n m [] ys h = ap (λ k. drop k ys) (omega arith)
drop_skip zero m (x ∷ xs) ys h = absurd (omega arith)
drop_skip (suc n) m (x ∷ xs) ys h = drop_skip n m xs ys (omega arith)

pub take_all : (n : ℕ) (xs : List ℕ) → length xs ≤ n → take n xs ≡ xs
take_all zero [] h = refl
take_all zero (x ∷ xs) h = absurd (omega arith)
take_all (suc n) [] h = refl
take_all (suc n) (x ∷ xs) h = ap (λ t. x ∷ t) (take_all n xs (omega arith))

pub take-append_drop : (n : ℕ) (xs : List ℕ) → take n xs ++ drop n xs ≡ xs
take-append_drop zero xs = refl
take-append_drop (suc n) [] = refl
take-append_drop (suc n) (x ∷ xs) = ap (λ t. x ∷ t) (take-append_drop n xs)

pub length-take : (n : ℕ) (xs : List ℕ) → length (take n xs) ≡ min n (length xs)
length-take zero xs = omega arith
length-take (suc n) [] = omega arith
length-take (suc n) (x ∷ xs) = omega (arith, length-take n xs)

pub length-drop : (n : ℕ) (xs : List ℕ) → length (drop n xs) ≡ length xs - n
length-drop zero xs = omega arith
length-drop (suc n) [] = omega arith
length-drop (suc n) (x ∷ xs) = omega (arith, length-drop n xs)

suc-add : (a b : ℕ) → suc a + b ≡ suc (a + b)
suc-add a b = omega arith

pub drop_add : (a b : ℕ) (xs : List ℕ) → drop (a + b) xs ≡ drop b (drop a xs)
drop_add zero b xs = ap (λ k. drop k xs) (omega arith)
drop_add (suc a) zero [] = rw (suc-add a zero)
drop_add (suc a) (suc b) [] = rw (suc-add a (suc b))
drop_add (suc a) b (x ∷ xs) = rw (suc-add a b) (drop_add a b xs)

unfoldable pub is_prefix : List ℕ → List ℕ → Bool
is_prefix [] ys = true
is_prefix (x ∷ xs) [] = false
is_prefix (x ∷ xs) (y ∷ ys) = eqb x y && is_prefix xs ys

-- `haystack.includes(needle)` on buffers and texts.
unfoldable pub contains : List ℕ → List ℕ → Bool
contains needle [] = is_prefix needle []
contains needle (b ∷ bs) = is_prefix needle (b ∷ bs) || contains needle bs

pub is_prefix-append : (xs ys : List ℕ) → is_prefix xs (xs ++ ys) ≡ true
unfolding is_prefix
is_prefix-append [] ys = refl
is_prefix-append (x ∷ xs) ys = ground (arith, is_prefix-append xs ys)

pub or_of_left : (a b : Bool) → a ≡ true → (a || b) ≡ true
or_of_left true b h = refl
or_of_left false b h = cc

pub or_of_right : (a b : Bool) → b ≡ true → (a || b) ≡ true
or_of_right true b h = refl
or_of_right false b h = h

pub contains-append : (xs needle ys : List ℕ) → contains needle (xs ++ (needle ++ ys)) ≡ true
unfolding contains is_prefix
contains-append [] [] [] = refl
contains-append [] [] (y ∷ ys) = refl
contains-append [] (n ∷ needle) ys =
    or_of_left (is_prefix (n ∷ needle) (n ∷ (needle ++ ys))) (contains (n ∷ needle) (needle ++ ys))
      (is_prefix-append (n ∷ needle) ys)
contains-append (x ∷ xs) needle ys =
    or_of_right (is_prefix needle (x ∷ (xs ++ (needle ++ ys))))
      (contains needle (xs ++ (needle ++ ys))) (contains-append xs needle ys)

instance abbrev pub bytes_equality : StrictEq (List ℕ)
bytes_equality = record { same = λ xs ys. bytes_eq xs ys; same_iff = λ xs ys. bytes_eq_iff xs ys }

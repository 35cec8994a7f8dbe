-- ===== src/Common/Bytes.antt =====
-- Fixed-width integers as byte lists in both byte orders: what the macros GUINT64_TO_LE,
-- GUINT64_FROM_LE, GUINT32_TO_BE and GUINT32_FROM_BE leave in memory and read back.
use mathlib.Core.List.{reverse, reverse-reverse, reverse-cons, List, [], ◌∷◌}
use libiphone_debian.Common.Lists.{length, length-append}
use Prim.Native.Nat.{ℕ, zero, suc, ◌+◌, ◌*◌, ◌/◌, ◌%◌, ◌^◌, ◌<◌}
use mathlib.Core.Path.{◌≡◌, refl, ap, ◌∙◌}
use native.Mathlib.Omega.{arith}

-- The `n` low bytes of `v`, least significant first.
unfoldable pub le_bytes : ℕ → ℕ → List ℕ
le_bytes zero v = []
le_bytes (suc n) v = (v % 256) ∷ le_bytes n (v / 256)

unfoldable pub le_value : List ℕ → ℕ
le_value [] = 0
le_value (b ∷ bs) = b + 256 * le_value bs

-- Most significant first.
unfoldable pub be_bytes : ℕ → ℕ → List ℕ
unfolding le_bytes
be_bytes n v = reverse (le_bytes n v)

pub be_value : List ℕ → ℕ
unfolding le_value
be_value bs = le_value (reverse bs)

abbrev pub IsU32 : ℕ → Type 0
IsU32 v = v < 2 ^ 32

abbrev pub IsU64 : ℕ → Type 0
IsU64 v = v < 2 ^ 64

abbrev pub IsByte : ℕ → Type 0
IsByte b = b < 256

pub length-le_bytes : (n v : ℕ) → length (le_bytes n v) ≡ n
unfolding le_bytes
length-le_bytes zero v = refl
length-le_bytes (suc n) v = ap suc (length-le_bytes n (v / 256))

length-reverse : (xs : List ℕ) → length (reverse xs) ≡ length xs
length-reverse [] = refl
length-reverse (x ∷ xs) =
    omega
      (arith, ap length (reverse-cons x xs), length-append (reverse xs) (x ∷ []), length-reverse xs)

pub length-be_bytes : (n v : ℕ) → length (be_bytes n v) ≡ n
unfolding be_bytes
length-be_bytes n v = length-reverse (le_bytes n v) ∙ length-le_bytes n v

-- A power of 256, by recursion on its exponent.
pow256 : ℕ → ℕ
pow256 zero = 1
pow256 (suc n) = 256 * pow256 n

le_value-le_bytes : (n v : ℕ) → v < pow256 n → le_value (le_bytes n v) ≡ v
unfolding le_bytes le_value pow256
le_value-le_bytes zero v h = omega arith
le_value-le_bytes (suc n) v h = omega (arith, le_value-le_bytes n (v / 256) (omega arith))

pub le_value-le_bytes64 : (v : ℕ) → IsU64 v → le_value (le_bytes 8 v) ≡ v
unfolding pow256
le_value-le_bytes64 v h = le_value-le_bytes 8 v (omega arith)

be_value-be_bytes : (n v : ℕ) → v < pow256 n → be_value (be_bytes n v) ≡ v
unfolding be_bytes be_value
be_value-be_bytes n v h = ap le_value (reverse-reverse (le_bytes n v)) ∙ le_value-le_bytes n v h

pub be_value-be_bytes32 : (v : ℕ) → IsU32 v → be_value (be_bytes 4 v) ≡ v
unfolding pow256
be_value-be_bytes32 v h = be_value-be_bytes 4 v (omega arith)

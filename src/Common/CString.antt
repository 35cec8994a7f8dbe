-- ===== src/Common/CString.antt =====
-- C strings: the bytes in front of the terminating NUL.
use libiphone_debian.Common.Tests.{◌==◌, if◌then◌else◌}
use libiphone_debian.Common.Lists.{All}
use Prim.Native.Nat.{ℕ}
use mathlib.Core.Path.{◌≡◌, refl}
use mathlib.Core.Logic.{◌≢◌}
use mathlib.Core.Bool.{Bool, true, false, ◌&&◌}
use mathlib.Core.List.{List, [], ◌∷◌, ◌++◌}
use mathlib.Core.Option.{Option, none, some}
use native.Mathlib.Omega.{arith}

abbrev pub CString : Type 0
CString = List ℕ

-- No byte of the string is its terminator.
abbrev pub IsCString : CString → Type 0
IsCString = All (λ b. b ≢ 0)

-- The string as it lies in memory.
abbrev pub terminated : CString → List ℕ
terminated s = s ++ (0 ∷ [])

-- The string that starts at the head of a memory block; `none` if no NUL stands in it.
pub string_at : List ℕ → Option CString
string_at [] = none
string_at (b ∷ bs) =
    if b == 0 then some [] else elim (string_at bs) [ none ↦ none | some s ↦ some (b ∷ s) ]

pub string_at-terminated :
    (s : CString) (rest : List ℕ) → IsCString s → string_at (s ++ (0 ∷ rest)) ≡ some s
unfolding string_at
string_at-terminated [] rest h = refl
string_at-terminated (b ∷ s) rest h = ground (arith, string_at-terminated s rest h.1)

-- strcmp(a, b) == 0
unfoldable pub string_eq : CString → CString → Bool
string_eq [] [] = true
string_eq (a ∷ s) (b ∷ t) = a == b && string_eq s t
string_eq _ _ = false

pub string_eq→eq : (s t : CString) → string_eq s t ≡ true → s ≡ t
unfolding string_eq
string_eq→eq [] [] h = refl
string_eq→eq (a ∷ s) (b ∷ t) h = ground (arith, string_eq→eq s t)
string_eq→eq [] (b ∷ t) h = cc
string_eq→eq (a ∷ s) [] h = cc

pub string_eq_refl : (s : CString) → string_eq s s ≡ true
unfolding string_eq
string_eq_refl [] = refl
string_eq_refl (a ∷ s) = ground (arith, string_eq_refl s)

-- No NUL stands in the string.
abbrev pub nul_free : CString → Bool
nul_free [] = true
nul_free (b ∷ s) = if b == 0 then false else nul_free s

pub nul_free→IsCString : (s : CString) → nul_free s ≡ true → IsCString s
nul_free→IsCString [] h = tt
nul_free→IsCString (b ∷ s) h = ((λ e. ground arith), nul_free→IsCString s (ground arith))

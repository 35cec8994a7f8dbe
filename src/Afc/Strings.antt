-- ===== src/Afc/Strings.antt =====
-- src/afc.c: the list of strings that a directory listing or an information reply holds.

pub mod Tokens
use libiphone_debian.Common.{
  ℕ, zero, suc, ◌+◌, Option, none, some, List, [], ◌∷◌, length, take, drop, ◌==◌, if◌then◌else◌,
}
use libiphone_debian.Common.Outcome.{Outcome, done, fault, over_read, ◌>>=◌}
use libiphone_debian.Common.CString.{CString, string_at}

-- How many of the first bytes are NUL.
pub count_nullspaces : List ℕ → ℕ
count_nullspaces [] = 0
count_nullspaces (b ∷ bs) = (if b == 0 then 1 else 0) + count_nullspaces bs

-- strdup(tokens + j), `nulls` times; each string moves on past its NUL.
pub split_strings : ℕ → List ℕ → Outcome (List CString)
split_strings zero tokens = done []
split_strings (suc nulls) tokens = elim (string_at tokens) [
  | none ↦ fault over_read
  | some s ↦ split_strings nulls (drop (length s + 1) tokens) >>= λ rest. done (s ∷ rest)
]

pub make_strings_list : Option (List ℕ) → ℕ → Outcome (Option (List CString))
make_strings_list none n = done none
make_strings_list (some tokens) n =
    let strings = split_strings (count_nullspaces (take n tokens)) tokens in
    if n == 0 then done none else strings >>= λ list. done (some list)

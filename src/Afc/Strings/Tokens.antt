-- ===== src/Afc/Strings/Tokens.antt =====
-- src/afc.c: make_strings_list and the strings that its input is made of.
use libiphone_debian.Common.Outcome.{Unblocked-bind, Unblocked, done, ◌>>=◌}
use libiphone_debian.Common.{
  [], ◌==◌, none, inr, inl, Bool-cases, Option-cases, Option, ℕ, zero, suc, ◌+◌, ◌≤◌, ◌≡◌, refl,
  sym, ap, ap₂, ◌∙◌, ◌<◌, take-append-drop, some, List, ◌∷◌, ◌++◌, length, take, drop, All, arith,
  take_all, length-append, drop-append_length,
}
use mathlib.Core.List.{append_assoc, append-nil}
use libiphone_debian.Common.CString.{
  CString, IsCString, terminated, string_at, string_at-terminated,
}
use libiphone_debian.Afc.Strings.{count_nullspaces, split_strings, make_strings_list}

-- The strings in memory, one behind the other.
pub layout : List CString → List ℕ
layout [] = []
layout (s ∷ ss) = terminated s ++ layout ss

count-append :
    (xs ys : List ℕ) → count_nullspaces (xs ++ ys) ≡ count_nullspaces xs + count_nullspaces ys
unfolding count_nullspaces
count-append [] ys = omega arith
count-append (x ∷ xs) ys = omega (arith, count-append xs ys)

count-terminated : (s : CString) → IsCString s → count_nullspaces (terminated s) ≡ 1
unfolding count_nullspaces
count-terminated [] h = refl
count-terminated (b ∷ s) h = ground (arith, count-terminated s h.1)

count-layout : (ss : List CString) → All IsCString ss → count_nullspaces (layout ss) ≡ length ss
unfolding layout
count-layout [] h = unfold count_nullspaces in refl
count-layout (s ∷ ss) h =
    omega
      (arith, count-append (terminated s) (layout ss), count-terminated s h.0, count-layout ss h.1)

drop-terminated : (s : CString) (rest : List ℕ) → drop (length s + 1) (terminated s ++ rest) ≡ rest
drop-terminated s rest =
    ap (λ n. drop n (terminated s ++ rest)) (sym (length-append s (0 ∷ [])))
    ∙ drop-append_length (terminated s) rest

string_at-append :
    (s : CString) (rest : List ℕ) → IsCString s → string_at (terminated s ++ rest) ≡ some s
string_at-append s rest h =
    ap string_at (append_assoc s (0 ∷ []) rest) ∙ string_at-terminated s rest h

-- One round of the loop takes one string.
split_strings-step :
    (nulls : ℕ) (s : CString) (rest : List ℕ)
    → IsCString s
    → split_strings (suc nulls) (terminated s ++ rest)
      ≡ (split_strings nulls rest >>= λ ss. done (s ∷ ss))
unfolding split_strings
split_strings-step nulls s rest h =
    rw (string_at-append s rest h, split_strings) (rw (drop-terminated s rest))

layout_regroup :
    (s : CString) (ss : List CString) (rest : List ℕ)
    → layout (s ∷ ss) ++ rest ≡ terminated s ++ (layout ss ++ rest)
unfolding layout
layout_regroup s ss rest = append_assoc (terminated s) (layout ss) rest

split_strings-layout :
    (ss : List CString) (rest : List ℕ)
    → All IsCString ss
    → split_strings (length ss) (layout ss ++ rest) ≡ done ss
split_strings-layout [] rest h = unfold split_strings in refl
split_strings-layout (s ∷ ss) rest h =
    ap (split_strings (suc (length ss))) (layout_regroup s ss rest)
    ∙ split_strings-step (length ss) s (layout ss ++ rest) h.0
    ∙ ap (λ o. o >>= λ ts. done (s ∷ ts)) (split_strings-layout ss rest h.1)

-- The strings of a block of memory, and what stands behind the last NUL.
abbrev pub Cuts : List ℕ → List CString → List ℕ → Type 0
Cuts bytes ss rest = (bytes ≡ layout ss ++ rest) × All IsCString ss × IsCString rest

-- A byte in front of a block that is cut up.
cons-Cuts :
    (b : ℕ) (bytes : List ℕ) (ss : List CString) (rest : List ℕ)
    → Cuts bytes ss rest
    → (ts : List CString) × (more : List ℕ) × Cuts (b ∷ bytes) ts more
unfolding layout
cons-Cuts zero bytes ss rest c = ([] ∷ ss, rest, (ap (◌∷◌ 0) c.0, (tt, c.1), c.2))
cons-Cuts (suc b) bytes [] rest c =
    ([], suc b ∷ rest, (ap (◌∷◌ (suc b)) c.0, tt, (λ e. omega arith, c.2)))
cons-Cuts (suc b) bytes (s ∷ ss) rest c =
    ((suc b ∷ s) ∷ ss, rest, (ap (◌∷◌ (suc b)) c.0, ((λ e. omega arith, c.1.0), c.1.1), c.2))

cut : (bytes : List ℕ) → (ss : List CString) × (rest : List ℕ) × Cuts bytes ss rest
unfolding layout
cut [] = ([], [], (refl, tt, tt))
cut (b ∷ bytes) = let (ss, rest, c) = cut bytes in cons-Cuts b bytes ss rest c

count-IsCString : (s : CString) → IsCString s → count_nullspaces s ≡ 0
unfolding count_nullspaces
count-IsCString [] h = refl
count-IsCString (b ∷ s) h = ground (arith, count-IsCString s h.1)

-- With a length above 0 the list is what split_strings gives.
make_strings_list-some :
    (tokens : List ℕ) (n : ℕ)
    → 0 < n
    → make_strings_list (some tokens) n
      ≡ (split_strings (count_nullspaces (take n tokens)) tokens >>= λ l. done (some l))
unfolding make_strings_list
make_strings_list-some tokens n h = ground arith

count-Cuts :
    (bytes : List ℕ) (ss : List CString) (rest : List ℕ)
    → Cuts bytes ss rest
    → count_nullspaces bytes ≡ length ss
count-Cuts bytes ss rest c = omega (
  arith,
  ap count_nullspaces c.0,
  count-append (layout ss) rest,
  count-layout ss c.1,
  count-IsCString rest c.2,
)

-- The strings that lie in the first `n` bytes are those that are listed.
make_strings_list-of :
    (tokens : List ℕ) (n : ℕ) (ss : List CString) (rest : List ℕ)
    → 0 < n
    → Cuts (take n tokens) ss rest
    → make_strings_list (some tokens) n ≡ done (some ss)
make_strings_list-of tokens n ss rest pos c =
    make_strings_list-some tokens n pos
    ∙ ap (λ o. o >>= λ l. done (some l))
        (ap₂ split_strings (count-Cuts _ ss rest c) whole
          ∙ split_strings-layout ss (rest ++ drop n tokens) c.1)
  where
    whole : tokens ≡ layout ss ++ (rest ++ drop n tokens)
    whole =
        sym (take-append-drop n tokens)
        ∙ ap (λ xs. xs ++ drop n tokens) c.0
        ∙ append_assoc (layout ss) rest (drop n tokens)

-- Whatever the bytes are, make_strings_list reads no further than the length that it is given, when
-- that is above 0 and within the buffer, and lists exactly the strings that end within it.
pub make_strings_list-Cuts :
    (tokens : List ℕ) (n : ℕ)
    → 0 < n
    → n ≤ length tokens
    → (ss : List CString) × (rest : List ℕ) × Cuts (take n tokens) ss rest
      × (make_strings_list (some tokens) n ≡ done (some ss))
make_strings_list-Cuts tokens n pos fits =
    let (ss, rest, c) = cut (take n tokens) in
    (ss, rest, c, make_strings_list-of tokens n ss rest pos c)

layout-pos : (s : CString) (ss : List CString) → 0 < length (layout (s ∷ ss))
unfolding layout
layout-pos s ss = omega (arith, length-append (terminated s) (layout ss), length-append s (0 ∷ []))

-- From strings without a NUL inside, laid out one behind the other in a buffer of that length,
-- make_strings_list gives those strings back.
pub make_strings_list-layout :
    (s : CString) (ss : List CString)
    → All IsCString (s ∷ ss)
    → make_strings_list (some (layout (s ∷ ss))) (length (layout (s ∷ ss))) ≡ done (some (s ∷ ss))
make_strings_list-layout s ss h =
    make_strings_list-of _ _ (s ∷ ss) [] (layout-pos s ss)
      (take_all _ _ (omega arith) ∙ sym (append-nil _), h, tt)

-- The list is made without a lock.
split_strings-Unblocked :
    (nulls : ℕ) (tokens : List ℕ) → Unblocked (λ x. Unit {0}) (split_strings nulls tokens)
unfolding split_strings
split_strings-Unblocked zero tokens = tt
split_strings-Unblocked (suc nulls) tokens = elim (Option-cases (string_at tokens)) [
  | inl e ↦ rw (e, split_strings) tt
  | inr (s, e) ↦
      let rest = drop (length s + 1) tokens in
      rw (e, split_strings)
        (Unblocked-bind _ (λ x. Unit {0}) (split_strings nulls rest) _
          (split_strings-Unblocked nulls rest) (λ a k. tt))
]

pub make_strings_list-Unblocked :
    (tokens : Option (List ℕ)) (n : ℕ) → Unblocked (λ x. Unit {0}) (make_strings_list tokens n)
unfolding make_strings_list
make_strings_list-Unblocked none n = tt
make_strings_list-Unblocked (some tokens) n = elim (Bool-cases (n == 0)) [
  | inl e ↦ rw e tt
  | inr e ↦
      let nulls = count_nullspaces (take n tokens) in
      rw e (
        Unblocked-bind _ (λ x. Unit {0}) (split_strings nulls tokens) _
          (split_strings-Unblocked nulls tokens) (λ a k. tt))
]

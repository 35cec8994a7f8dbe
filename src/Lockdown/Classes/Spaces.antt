-- ===== src/Lockdown/Classes/Spaces.antt =====
-- src/lockdown.c: what str_remove_spaces leaves of a string.
use mathlib.Core.List.{append-nil, append_assoc}
use libiphone_debian.Common.{
  ◌<◌, some, true, false, List, if◌then◌else◌, ℕ, ◌==◌, [], ◌∷◌, ◌++◌, zero, suc, ◌+◌, length, ◌≡◌,
  ◌≢◌, refl, ap, ◌∙◌, sym, arith, Bool-cases, length-append, inl, inr,
}
use libiphone_debian.Common.CString.{CString, IsCString, string_at, string_at-terminated}
use libiphone_debian.Common.Outcome.{Outcome, done}
use libiphone_debian.Lockdown.Classes.{isspace, write_at, read_at, remove_loop, str_remove_spaces}

-- The bytes of a string that are no blanks.
abbrev pub without_spaces : CString → CString
without_spaces [] = []
without_spaces (c ∷ s) = if isspace c then without_spaces s else c ∷ without_spaces s

read_at-append : (xs ys : List ℕ) (c : ℕ) → read_at (length xs) (xs ++ (c ∷ ys)) ≡ some c
read_at-append [] ys c = refl
read_at-append (x ∷ xs) ys c = read_at-append xs ys c

write_at-append :
    (xs ys : List ℕ) (b c : ℕ) → write_at (length xs) b (xs ++ (c ∷ ys)) ≡ xs ++ (b ∷ ys)
write_at-append [] ys b c = refl
write_at-append (x ∷ xs) ys b c = ap (◌∷◌ x) (write_at-append xs ys b c)

-- What is kept, what is over-written next, and what is still to be read.
abbrev laid_out : List ℕ → List ℕ → List ℕ → List ℕ
laid_out kept gap todo = kept ++ (gap ++ todo)

append_snoc : (xs ys : List ℕ) (c : ℕ) → xs ++ (c ∷ ys) ≡ (xs ++ (c ∷ [])) ++ ys
append_snoc [] ys c = refl
append_snoc (x ∷ xs) ys c = ap (◌∷◌ x) (append_snoc xs ys c)

length-snoc : (xs : List ℕ) (c : ℕ) → length (xs ++ (c ∷ [])) ≡ length xs + 1
length-snoc xs c = length-append xs (c ∷ [])

read-laid_out :
    (kept gap todo : List ℕ) (c : ℕ)
    → read_at (length kept + length gap) (laid_out kept gap (c ∷ todo)) ≡ some c
read-laid_out kept gap todo c =
    let e : (kept ++ gap) ++ (c ∷ todo) ≡ laid_out kept gap (c ∷ todo) =
      append_assoc kept gap (c ∷ todo) in
    ap (λ b. read_at (length kept + length gap) b) (sym e)
    ∙ (ap (λ n. read_at n ((kept ++ gap) ++ (c ∷ todo))) (sym (length-append kept gap))
        ∙ read_at-append (kept ++ gap) todo c)

-- The gap moves on by one byte, and takes in the byte that was read.
abbrev moved : List ℕ → ℕ → List ℕ
moved [] c = []
moved (g ∷ gap) c = gap ++ (c ∷ [])

length-moved : (gap : List ℕ) (c : ℕ) → length (moved gap c) ≡ length gap
length-moved [] c = refl
length-moved (g ∷ gap) c = omega (arith, length-snoc gap c)

write-laid_out :
    (kept gap todo : List ℕ) (b c : ℕ)
    → write_at (length kept) b (laid_out kept gap (c ∷ todo)) ≡ kept ++ (b ∷ (moved gap c ++ todo))
write-laid_out kept [] todo b c = write_at-append kept todo b c
write-laid_out kept (g ∷ gap) todo b c =
    write_at-append kept (gap ++ (c ∷ todo)) b g
    ∙ ap (λ rest. kept ++ (b ∷ rest)) (append_snoc gap todo c)

-- The string that the loop leaves in front of a NUL, when it still has `todo` to read.
abbrev Leaves : Outcome (List ℕ) → List ℕ → Type 0
Leaves m s = (junk : List ℕ) × (m ≡ done (s ++ (0 ∷ junk)))

abbrev state : List ℕ → List ℕ → List ℕ → ℕ → Outcome (List ℕ)
state kept gap todo fuel =
    remove_loop fuel (length kept + length gap) (length kept, laid_out kept gap todo)

ends : (kept gap tail : List ℕ) (fuel : ℕ) → Leaves (state kept gap (0 ∷ tail) (suc fuel)) kept
unfolding remove_loop
ends kept gap tail fuel = (
  moved gap 0 ++ tail,
  rw (read-laid_out kept gap tail 0) (ap done (write-laid_out kept gap tail 0 0)),
)

skips :
    (kept gap todo : List ℕ) (c fuel : ℕ)
    → c ≢ 0
    → isspace c ≡ true
    → state kept gap (c ∷ todo) (suc fuel) ≡ state kept (gap ++ (c ∷ [])) todo fuel
unfolding remove_loop
skips kept gap todo c fuel nonzero h =
    let e : (c == 0) ≡ false = ground arith in
    let n : length kept + length gap + 1 ≡ length kept + length (gap ++ (c ∷ [])) =
      omega (arith, length-snoc gap c) in
    rw (read-laid_out kept gap todo c, e, h)
      (ap (λ k. remove_loop fuel k (length kept, laid_out kept gap (c ∷ todo))) n
        ∙ ap
            (λ b.
              remove_loop fuel (length kept + length (gap ++ (c ∷ []))) (length kept, kept ++ b))
            (append_snoc gap todo c))

copies :
    (kept gap todo : List ℕ) (c fuel : ℕ)
    → c ≢ 0
    → isspace c ≡ false
    → state kept gap (c ∷ todo) (suc fuel) ≡ state (kept ++ (c ∷ [])) (moved gap c) todo fuel
unfolding remove_loop
copies kept gap todo c fuel nonzero h =
    let e : (c == 0) ≡ false = ground arith in
    let l = length-snoc kept c in
    let m = length-moved gap c in
    let n : length kept + length gap + 1 ≡ length (kept ++ (c ∷ [])) + length (moved gap c) =
      omega (arith, l, m) in
    rw (read-laid_out kept gap todo c, e, h, write-laid_out kept gap todo c c)
      (ap (λ k. remove_loop fuel k (length kept + 1, kept ++ (c ∷ (moved gap c ++ todo)))) n
        ∙ (ap
              (λ k.
                remove_loop fuel (length (kept ++ (c ∷ [])) + length (moved gap c))
                  (k, kept ++ (c ∷ (moved gap c ++ todo))))
              (sym l)
            ∙ ap
                (λ b.
                  remove_loop fuel (length (kept ++ (c ∷ [])) + length (moved gap c))
                    (length (kept ++ (c ∷ [])), b))
                (append_snoc kept (moved gap c ++ todo) c)))

removes :
    (todo kept gap tail : List ℕ) (fuel : ℕ)
    → IsCString todo
    → length todo < fuel
    → Leaves (state kept gap (todo ++ (0 ∷ tail)) fuel) (kept ++ without_spaces todo)
removes todo kept gap tail zero h k = absurd (omega (arith, k))
removes [] kept gap tail (suc fuel) h k = rw (append-nil kept) (ends kept gap tail fuel)
removes (c ∷ todo) kept gap tail (suc fuel) h k = elim (Bool-cases (isspace c)) [
  | inl space ↦
      let (junk, e) = removes todo kept (gap ++ (c ∷ [])) tail fuel h.1 (omega (arith, k)) in
      (junk, skips kept gap (todo ++ (0 ∷ tail)) c fuel h.0 space ∙ rw space e)
  | inr other ↦
      let (junk, e) =
        removes todo (kept ++ (c ∷ [])) (moved gap c) tail fuel h.1 (omega (arith, k)) in
      (
        junk,
        copies kept gap (todo ++ (0 ∷ tail)) c fuel h.0 other
            ∙ rw (other, append_snoc kept (without_spaces todo) c) e,
      )
]

without_spaces-IsCString : (s : CString) → IsCString s → IsCString (without_spaces s)
without_spaces-IsCString [] h = tt
without_spaces-IsCString (c ∷ s) h = elim (Bool-cases (isspace c)) [
  | inl space ↦ rw space (without_spaces-IsCString s h.1)
  | inr other ↦ rw other (h.0, without_spaces-IsCString s h.1)
]

-- On a C string, whatever stands behind its NUL, str_remove_spaces ends within the string's block, and
-- the string that it leaves there is the given one without its blanks.
pub str_remove_spaces_removes :
    (s : CString) (tail : List ℕ)
    → IsCString s
    → (block : List ℕ) × (str_remove_spaces (s ++ (0 ∷ tail)) ≡ done block)
      × (string_at block ≡ some (without_spaces s))
unfolding str_remove_spaces
str_remove_spaces_removes s tail h =
    let (junk, e) =
      removes s [] [] tail (length (s ++ (0 ∷ tail))) h
        (omega (arith, length-append s (0 ∷ tail))) in
    (without_spaces s ++ (0 ∷ junk), e, string_at-terminated _ junk (without_spaces-IsCString s h))

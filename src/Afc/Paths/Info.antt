-- ===== src/Afc/Paths/Info.antt =====
-- src/afc.c: the search of afc_get_device_info_key and the keys and values that the device lists.
use libiphone_debian.Common.Outcome.{Outcome, fault, null_deref, done}
use libiphone_debian.Common.{
  ◌++◌, ◌∙◌, refl, some, true, [], arith, false, none, All, List, Option, if◌then◌else◌, ◌∷◌, ◌≡◌,
}
use libiphone_debian.Common.CString.{CString, string_eq}
use libiphone_debian.Afc.Paths.{find_value}

-- Keys and values in the order in which the device lists them.
pub listed : List (CString × CString) → List CString
listed [] = []
listed ((k, v) ∷ kvs) = k ∷ (v ∷ listed kvs)

-- The value behind the first key that fits.
unfoldable pub value_for : CString → List (CString × CString) → Option CString
value_for key [] = none
value_for key ((k, v) ∷ kvs) = if string_eq k key then some v else value_for key kvs

-- No value is spelled like the key.
abbrev pub NoValueIs : CString → List (CString × CString) → Type 0
NoValueIs key = All (λ kv. string_eq kv.1 key ≡ false)

find_value-skip :
    (key v : CString) (rest : List CString)
    → string_eq v key ≡ false
    → find_value key (v ∷ rest) ≡ find_value key rest
unfolding find_value
find_value-skip key v [] h = ground arith
find_value-skip key v (k ∷ rest) h = ground arith

-- Where no value is spelled like the key, the search through keys and values alike finds the value of
-- the first such key, and nothing where there is none.
pub find_value-listed :
    (key : CString) (kvs : List (CString × CString))
    → NoValueIs key kvs
    → find_value key (listed kvs) ≡ done (value_for key kvs)
unfolding find_value listed value_for
find_value-listed key [] h = refl
find_value-listed key ((k, v) ∷ kvs) h =
    ground (arith, find_value-skip key v (listed kvs) h.0, find_value-listed key kvs h.1)

-- What the search takes for the value of a value in front of the given pairs: the next key.
abbrev pub next_key : List (CString × CString) → Outcome (Option CString)
next_key [] = fault null_deref
next_key ((k, v) ∷ kvs) = done (some k)

-- Neither a key nor a value is spelled like the key.
abbrev pub NothingIs : CString → List (CString × CString) → Type 0
NothingIs key = All (λ kv. (string_eq kv.0 key ≡ false) × (string_eq kv.1 key ≡ false))

find_value-pair :
    (key k v : CString) (rest : List CString)
    → string_eq k key ≡ false
    → string_eq v key ≡ false
    → find_value key (k ∷ (v ∷ rest)) ≡ find_value key rest
find_value-pair key k v rest h g = find_value-skip key k (v ∷ rest) h ∙ find_value-skip key v rest g

-- A value that is spelled like the key, at the head of what is left, its own key aside.
find_value-hit :
    (key k v : CString) (after : List (CString × CString))
    → string_eq k key ≡ false
    → string_eq v key ≡ true
    → find_value key (listed ((k, v) ∷ after)) ≡ next_key after
unfolding find_value listed
find_value-hit key k v [] h hit = ground arith
find_value-hit key k v (kv ∷ after) h hit = ground arith

-- The bug: behind any pairs without a key or a value that is spelled like the key, a pair whose value
-- is spelled like it and whose own key is not ends the search with the key of the next pair for the
-- result, whatever the pairs behind hold; where there is no next pair, the search reads through NULL.
pub find_value_mistakes :
    (key k v : CString) (before after : List (CString × CString))
    → NothingIs key before
    → string_eq k key ≡ false
    → string_eq v key ≡ true
    → find_value key (listed (before ++ ((k, v) ∷ after))) ≡ next_key after
unfolding listed
find_value_mistakes key k v [] after none_is h hit = find_value-hit key k v after h hit
find_value_mistakes key k v ((k1, v1) ∷ before) after none_is h hit =
    find_value-pair key k1 v1 _ none_is.0.0 none_is.0.1
    ∙ find_value_mistakes key k v before after none_is.1 h hit

-- ===== src/Plist.antt =====
-- libplist, as the services use it: a node that is taken apart, and nodes that are built.
pub mod Tree
use libiphone_debian.Common.{none, some, Bool, List, Option, [], ℕ, ◌∷◌, ◌≡◌, if◌then◌else◌}
use libiphone_debian.Common.CString.{CString, IsCString, string_eq}
use libiphone_debian.Common.Bytes.{IsU64}

-- What a plist is, as far as the services look.
pub data Node (P : Type 0) : Type 0 where
  array : List P → Node P
  string : CString → Node P
  uint : ℕ → Node P
  boolean : Bool → Node P
  bytes : List ℕ → Node P
  dict : List (CString × P) → Node P
  other : Node P

-- plist_dict_get_item on the entries of a dictionary, NULL for a key that is not there
unfoldable pub entry {ℓ} : {P : Type ℓ} → CString → List (CString × P) → Option P
entry key [] = none
entry key ((k, p) ∷ es) = if string_eq k key then some p else entry key es

-- plist_dict_insert_item: the value of a key that is there already is replaced.
unfoldable pub insert_item {ℓ} :
    {P : Type ℓ} → CString → P → List (CString × P) → List (CString × P)
insert_item key p [] = (key, p) ∷ []
insert_item key p ((k, q) ∷ es) =
    let rest = insert_item key p es in if string_eq k key then (k, p) ∷ es else (k, q) ∷ rest

-- The nodes of libplist, taken apart and built. A dictionary is built by insertions into an empty
-- one; its entries stand in the list in the order in which their keys came in.
pub record PlistNodes (P : Type 0) : Type 0 where
  pub view : P → Node P
  pub new_array : List P → P
  pub new_string : CString → P
  pub new_uint : ℕ → P
  pub new_bool : Bool → P
  pub new_data : List ℕ → P
  pub new_dict : List (CString × P) → P

-- The keys of a dictionary are C strings, and none stands in it twice.
abbrev pub IsKeyed : {P : Type 0} → List (CString × P) → Type 0
IsKeyed [] = Unit
IsKeyed ((k, p) ∷ es) = IsCString k × (entry k es ≡ none) × IsKeyed es

-- What libplist documents: a node that was built is taken apart into what it was built from. Strings
-- are C strings and end at their first NUL.
pub record IsBuilt {P : Type 0} (nodes : PlistNodes P) : Type 0 where
  pub view_array : (ps : List P) → nodes.view (nodes.new_array ps) ≡ Node.array ps
  pub view_string : (s : CString) → IsCString s → nodes.view (nodes.new_string s) ≡ Node.string s
  pub view_uint : (n : ℕ) → IsU64 n → nodes.view (nodes.new_uint n) ≡ Node.uint n
  pub view_dict :
      (es : List (CString × P)) → IsKeyed es → nodes.view (nodes.new_dict es) ≡ Node.dict es

-- plist_array_get_item(array, 0), 1 and so on; plist_array_get_size, 0 for another node
abbrev pub items : {P : Type 0} → Node P → List P
items (Node.array ps) = ps
items _ = []

-- plist_get_uint_val into a variable that is 0
abbrev pub uint_of : {P : Type 0} → Node P → ℕ
uint_of (Node.uint n) = n
uint_of _ = 0

-- The entries of a dictionary; another node has none.
abbrev pub entries : {P : Type 0} → Node P → List (CString × P)
entries (Node.dict es) = es
entries _ = []

-- plist_get_string_val into a variable that is NULL
abbrev pub string_of : {P : Type 0} → Node P → Option CString
string_of (Node.string s) = some s
string_of _ = none

module _ {P : Type 0} (nodes : PlistNodes P) where
  -- plist_dict_get_item(dict, key)
  abbrev pub get_item : P → CString → Option P
  get_item p key = entry key (entries (nodes.view p))

  -- plist_get_string_val of a node that may be NULL
  abbrev pub string_value : Option P → Option CString
  string_value none = none
  string_value (some p) = string_of (nodes.view p)

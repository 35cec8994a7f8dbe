-- ===== src/Plist/Tree.antt =====
-- The examples: a plist as a tree, and the world of a port as the trees that are still to be received
-- and those that were sent, the last one first.
use libiphone_debian.Common.{none, some, Option, refl, [], ap, Bool, List, ℕ, ◌∷◌, ◌≡◌}
use libiphone_debian.PropertyList.{PlistServiceError}
use libiphone_debian.Common.CString.{CString}
use libiphone_debian.Plist.{Node, PlistNodes, IsBuilt}

mutual
  pub data Tree : Type 0 where
    listed : Forest → Tree
    text : CString → Tree
    number : ℕ → Tree
    flag : Bool → Tree
    blob : List ℕ → Tree
    table : Entries → Tree

  pub data Forest : Type 0 where
    nil : Forest
    cons : Tree → Forest → Forest

  pub data Entries : Type 0 where
    blank : Entries
    row : CString → Tree → Entries → Entries

abbrev pub forest_of : List Tree → Forest
forest_of [] = nil
forest_of (t ∷ ts) = cons t (forest_of ts)

abbrev pub trees_of : Forest → List Tree
trees_of nil = []
trees_of (cons t f) = t ∷ trees_of f

trees_of-forest_of : (ts : List Tree) → trees_of (forest_of ts) ≡ ts
trees_of-forest_of [] = refl
trees_of-forest_of (t ∷ ts) = ap (◌∷◌ t) (trees_of-forest_of ts)

abbrev pub entries_of : List (CString × Tree) → Entries
entries_of [] = blank
entries_of ((k, t) ∷ es) = row k t (entries_of es)

abbrev pub pairs_of : Entries → List (CString × Tree)
pairs_of blank = []
pairs_of (row k t es) = (k, t) ∷ pairs_of es

pairs_of-entries_of : (es : List (CString × Tree)) → pairs_of (entries_of es) ≡ es
pairs_of-entries_of [] = refl
pairs_of-entries_of ((k, t) ∷ es) = ap (◌∷◌ (k, t)) (pairs_of-entries_of es)

abbrev pub look : Tree → Node Tree
look (listed f) = Node.array (trees_of f)
look (text s) = Node.string s
look (number n) = Node.uint n
look (flag b) = Node.boolean b
look (blob bs) = Node.bytes bs
look (table es) = Node.dict (pairs_of es)

abbrev pub tree_nodes : PlistNodes Tree
tree_nodes = record {
  view = look;
  new_array = λ ts. listed (forest_of ts);
  new_string = λ s. text s;
  new_uint = λ n. number n;
  new_bool = λ b. flag b;
  new_data = λ bs. blob bs;
  new_dict = λ es. table (entries_of es);
}

pub tree_nodes-IsBuilt : IsBuilt tree_nodes
tree_nodes-IsBuilt = record {
  view_array = λ ts. ap Node.array (trees_of-forest_of ts);
  view_string = λ s h. refl;
  view_uint = λ n h. refl;
  view_dict = λ es h. ap Node.dict (pairs_of-entries_of es);
}

pub record Mail : Type 0 where
  pub inbox : List Tree
  pub outbox : List Tree

-- What is received next, and what is sent.
abbrev pub next_mail : List Tree → List Tree → PlistServiceError × Option Tree × Mail
next_mail [] out = (PlistServiceError.mux_error, none, record { inbox = []; outbox = out })
next_mail (t ∷ ts) out = (PlistServiceError.success, some t, record { inbox = ts; outbox = out })

abbrev pub posted : Option Tree → Mail → PlistServiceError × Mail
posted none w = (PlistServiceError.invalid_arg, w)
posted (some t) w = (PlistServiceError.success, record w { outbox = t ∷ w.outbox })

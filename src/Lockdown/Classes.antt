-- ===== src/Lockdown/Classes.antt =====
-- src/lockdown.c: the data classes that the device synchronizes.
pub mod Spaces
use libiphone_debian.Common.{
  length, none, some, true, false, Bool, List, Option, if◌then◌else◌, ℕ, ◌==◌, ◌||◌, ◌&&◌, leb, [],
  ◌∷◌, ◌++◌, zero, suc, take, ◌+◌, not, drop,
}
use libiphone_debian.Common.CString.{CString, string_at, terminated}
use libiphone_debian.Common.Outcome.{Outcome, done, fault, ◌>>=◌, null_deref, running, over_read}
use libiphone_debian.Plist.{Node, PlistNodes, items, string_of}
use libiphone_debian.Lockdown.{LockdownError, LockdownClient, LockdownPort, is_success, has_session}
use libiphone_debian.Lockdown.Values.{lockdownd_get_value}
use libiphone_debian.Lockdown.Strings.{itunes_text, sync_data_classes_text, com_apple_text}

-- isspace in the C locale: the blank and the five characters from tab to carriage return
abbrev pub isspace : ℕ → Bool
isspace c = c == 32 || (leb 9 c && leb c 13)

-- *p = b, for a place inside of the block
abbrev pub write_at : ℕ → ℕ → List ℕ → List ℕ
write_at i b [] = []
write_at zero b (x ∷ xs) = b ∷ xs
write_at (suc i) b (x ∷ xs) = x ∷ write_at i b xs

-- *p; `none` outside of the block
abbrev pub read_at : ℕ → List ℕ → Option ℕ
read_at i [] = none
read_at zero (x ∷ xs) = some x
read_at (suc i) (x ∷ xs) = read_at i xs

-- One byte of the string: a blank is passed over, another byte is copied and `dest` moves on.
abbrev pub copy_byte : ℕ → ℕ → List ℕ → ℕ × List ℕ
copy_byte c dest block = if isspace c then (dest, block) else (dest + 1, write_at dest c block)

-- The loop of str_remove_spaces on the block of the string, with `dest` and `source` as places in it:
-- what *source is, and `rest` for the iterations behind that.
abbrev pub remove_step : (ℕ × List ℕ → Outcome (List ℕ)) → ℕ → List ℕ → Option ℕ → Outcome (List ℕ)
remove_step rest dest block none = fault over_read
remove_step rest dest block (some c) =
    let next = rest (copy_byte c dest block) in
    if c == 0 then done (write_at dest 0 block) else next

unfoldable pub remove_loop : ℕ → ℕ → ℕ × List ℕ → Outcome (List ℕ)
remove_loop zero source (dest, block) = running
remove_loop (suc fuel) source (dest, block) =
    remove_step (remove_loop fuel (source + 1)) dest block (read_at source block)

-- Both pointers start at the string, and a step takes one byte of the block.
unfoldable pub str_remove_spaces : List ℕ → Outcome (List ℕ)
str_remove_spaces block = remove_loop (length block) 0 (0, block)

-- A class that the array names: "com.apple." and the string without its blanks. There is no string in
-- another node.
unfoldable pub class_name : Option CString → Outcome CString
class_name none = fault null_deref
class_name (some val) = do
  block ← str_remove_spaces (terminated val)
  elim (string_at block) [ none ↦ fault over_read | some s ↦ done (com_apple_text ++ s) ]

-- The first node of the array, and the names of the others.
abbrev pub class_names : {P : Type 0} → PlistNodes P → List P → Outcome (List CString)
class_names nodes [] = done []
class_names nodes (value ∷ values) =
    let rest = class_names nodes values in
    class_name (string_of (nodes.view value)) >>= λ s. rest >>= λ names. done (s ∷ names)

abbrev pub is_array : {P : Type 0} → Node P → Bool
is_array (Node.array ps) = true
is_array _ = false

module _ {P W : Type 0} (nodes : PlistNodes P) (port : LockdownPort P W) where
  abbrev named_classes : W → List CString → LockdownError × Option (List CString) × W
  named_classes w names = (LockdownError.success, some names, w)

  abbrev classes_of :
      LockdownError × Option P × W → Outcome (LockdownError × Option (List CString) × W)
  classes_of (e, none, w) = done (if is_success e then LockdownError.plist_error else e, some [], w)
  classes_of (e, some dict, w) =
      let names = class_names nodes (items (nodes.view dict)) >>= λ ns. done (named_classes w ns) in
      if not (is_success e)
      then done (e, some [], w)
      else if is_array (nodes.view dict)
      then names
      else done (LockdownError.plist_error, some [], w)

  -- The second result is what *classes and *count are, `none` where they are left as they were.
  unfoldable pub lockdownd_get_sync_data_classes :
      Option LockdownClient → W → Outcome (LockdownError × Option (List CString) × W)
  lockdownd_get_sync_data_classes none w = done (LockdownError.invalid_arg, none, w)
  lockdownd_get_sync_data_classes (some client) w =
      let classes =
        lockdownd_get_value nodes port (some client) (some itunes_text)
          (some sync_data_classes_text) w
        >>= λ x. classes_of x in
      if has_session client.session_id
      then classes
      else done (LockdownError.no_running_session, none, w)

-- The strings of an array that lockdownd_data_classes_free frees: the index has moved on when it is
-- used, so that the string behind each one is freed, and behind the last one NULL.
abbrev pub freed_classes : List CString → List CString
freed_classes [] = []
freed_classes (s ∷ []) = []
freed_classes (s ∷ (t ∷ names)) = t ∷ freed_classes (t ∷ names)

pub lockdownd_data_classes_free : Option (List CString) → LockdownError × List CString
lockdownd_data_classes_free none = (LockdownError.success, [])
lockdownd_data_classes_free (some names) = (LockdownError.success, freed_classes names)

-- ===== src/MobileSync/Actions.antt =====
-- src/mobilesync.c: anchors, and the actions that go with changes.
use libiphone_debian.Common.Outcome.{Fault, Outcome, done, fault, ◌>>=◌}
use libiphone_debian.Common.{none, some, List, Option, if◌then◌else◌, ℕ, [], ◌∷◌, not, ◌==◌, ◌||◌}
use libiphone_debian.Common.CString.{CString, string_eq}
use libiphone_debian.Plist.{PlistNodes, insert_item, entries}
use libiphone_debian.MobileSync.{Anchors}
use libiphone_debian.MobileSync.Changes.{is_dict}
use libiphone_debian.MobileSync.Strings.{
  sync_device_link_entity_names_key_text,
  sync_device_link_all_records_of_pulled_entity_type_sent_key_text,
}

pub mobilesync_anchors_new : Option CString → Option CString → Anchors
mobilesync_anchors_new device_anchor computer_anchor = record {
  device_anchor = device_anchor;
  computer_anchor = computer_anchor;
}

-- An argument behind `actions`; the names come with their number, which is that of the list.
pub data ActionArg : Type 0 where
  key : CString → ActionArg
  names : List CString → ActionArg
  int : ℕ → ActionArg

-- The key whose value comes next; a key that is not known has none.
abbrev pending : CString → Option CString
pending k =
    if string_eq k sync_device_link_entity_names_key_text
      || string_eq k sync_device_link_all_records_of_pulled_entity_type_sent_key_text
    then some k
    else none

module _ {P : Type 0} (nodes : PlistNodes P) where
  pub mobilesync_actions_new : P
  mobilesync_actions_new = nodes.new_dict []

  abbrev new_strings : List CString → List P
  new_strings [] = []
  new_strings (s ∷ ss) = nodes.new_string s ∷ new_strings ss

  -- The loop, where the key was read whose value comes next, or none. A value of the wrong type, or
  -- a list that ends in front of a value, is a read of something else.
  unfoldable pub add_args :
      Option CString → List ActionArg → List (CString × P) → Outcome (List (CString × P))
  add_args none [] es = done es
  add_args (some k) [] es = fault Fault.over_read
  add_args none (ActionArg.key k ∷ args) es = add_args (pending k) args es
  add_args none (ActionArg.names ss ∷ args) es = fault Fault.over_read
  add_args none (ActionArg.int n ∷ args) es = fault Fault.over_read
  add_args (some k) (ActionArg.key other ∷ args) es = fault Fault.over_read
  add_args (some k) (ActionArg.names ss ∷ args) es =
      let rest = add_args none args (insert_item k (nodes.new_array (new_strings ss)) es) in
      if string_eq k sync_device_link_entity_names_key_text then rest else fault Fault.over_read
  add_args (some k) (ActionArg.int n ∷ args) es =
      let rest = add_args none args (insert_item k (nodes.new_bool (not (n == 0))) es) in
      if string_eq k sync_device_link_entity_names_key_text then fault Fault.over_read else rest

  abbrev with_entries : P → List (CString × P) → Option P
  with_entries actions es =
      if is_dict (nodes.view actions) then some (nodes.new_dict es) else some actions

  -- The node `actions` behind the call; it is a dictionary, and another node is left as it is.
  pub mobilesync_actions_add : Option P → List ActionArg → Outcome (Option P)
  mobilesync_actions_add none args = done none
  mobilesync_actions_add (some actions) args =
      add_args none args (entries (nodes.view actions)) >>= λ es. done (with_entries actions es)

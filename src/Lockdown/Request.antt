-- ===== src/Lockdown/Request.antt =====
-- src/lockdown.c: requests, answers, and the two functions that transfer them.
pub mod Check
use libiphone_debian.Lockdown.{is_success, LockdownError, LockdownClient, LockdownPort}
use libiphone_debian.Common.{none, some, true, false, Bool, List, Option, [], if◌then◌else◌}
use libiphone_debian.Common.CString.{CString, string_eq}
use libiphone_debian.Common.Outcome.{Outcome, done, ◌>>=◌}
use libiphone_debian.Plist.{Node, PlistNodes, insert_item, get_item, entries}
use libiphone_debian.PropertyList.{PlistServiceError}
use libiphone_debian.DeviceLink.{went_well}
use libiphone_debian.Lockdown.Strings.{
  request_text, result_text, success_text, failure_text, label_text,
}

-- RESULT_SUCCESS, RESULT_FAILURE, and a negative value
pub data CheckResult : Type 0 where
  result_success : CheckResult
  result_failure : CheckResult
  invalid : CheckResult

-- lockdown_check_result(dict, query) == RESULT_SUCCESS
abbrev pub is_result_success : CheckResult → Bool
is_result_success CheckResult.result_success = true
is_result_success _ = false

-- The value of a string that the answer's result is.
abbrev pub result_value : CString → CheckResult
result_value s =
    if string_eq s success_text
    then CheckResult.result_success
    else if string_eq s failure_text
    then CheckResult.result_failure
    else CheckResult.invalid

abbrev pub node_result : {P : Type 0} → Node P → CheckResult
node_result (Node.string s) = result_value s
node_result _ = CheckResult.invalid

-- The request of the answer is a string, and the one that is looked for if there is one.
abbrev pub node_matches : {P : Type 0} → Option CString → Node P → Bool
node_matches none (Node.string s) = true
node_matches (some query) (Node.string s) = string_eq s query
node_matches query_match _ = false

module _ {P : Type 0} (nodes : PlistNodes P) where
  abbrev pub matches : Option CString → Option P → Bool
  matches query_match none = false
  matches query_match (some query_node) = node_matches query_match (nodes.view query_node)

  abbrev pub result_of : Option P → CheckResult
  result_of none = CheckResult.invalid
  result_of (some result_node) = node_result (nodes.view result_node)

  unfoldable pub lockdown_check_result : Option P → Option CString → CheckResult
  lockdown_check_result none query_match = CheckResult.invalid
  lockdown_check_result (some answer) query_match =
      if matches query_match (get_item nodes answer request_text)
      then result_of (get_item nodes answer result_text)
      else CheckResult.invalid

  -- plist_dict_add_label on the entries of a dictionary
  abbrev pub plist_dict_add_label : List (CString × P) → Option CString → List (CString × P)
  plist_dict_add_label es none = es
  plist_dict_add_label es (some label) = insert_item label_text (nodes.new_string label) es

  -- A key whose value is a string, if the string is given.
  abbrev pub insert_given : CString → Option CString → List (CString × P) → List (CString × P)
  insert_given key none es = es
  insert_given key (some s) es = insert_item key (nodes.new_string s) es

  -- A new dictionary with the client's label.
  abbrev pub labelled : LockdownClient → List (CString × P)
  labelled client = plist_dict_add_label [] client.label

  -- The request in a dictionary.
  abbrev pub with_request : CString → List (CString × P) → List (CString × P)
  with_request name es = insert_item request_text (nodes.new_string name) es

  -- A dictionary of the label and the request alone.
  abbrev pub plain_request : LockdownClient → CString → P
  plain_request client name = nodes.new_dict (with_request name (labelled client))

module _ {P W : Type 0} (port : LockdownPort P W) where
  unfoldable pub lockdownd_send : Option LockdownClient → Option P → W → LockdownError × W
  lockdownd_send (some client) (some plist) w =
      let (err, w') = port.send_xml client.parent (some plist) w in
      (if went_well err then LockdownError.success else LockdownError.unknown_error, w')
  lockdownd_send client plist w = (LockdownError.invalid_arg, w)

  abbrev received_error : PlistServiceError → Option P → LockdownError
  received_error err none = LockdownError.plist_error
  received_error err (some p) =
      if went_well err then LockdownError.success else LockdownError.unknown_error

  abbrev received : PlistServiceError × Option P × W → LockdownError × Option P × W
  received (err, plist, w) = (received_error err plist, plist, w)

  -- `plist` is `none` for a NULL pointer; the second result is what *plist holds.
  unfoldable pub lockdownd_receive :
      Option LockdownClient → Option (Option P) → W → Outcome (LockdownError × Option P × W)
  lockdownd_receive (some client) (some none) w =
      port.receive client.parent (some none) w >>= λ x. done (received x)
  lockdownd_receive client (some (some before)) w = done (LockdownError.invalid_arg, some before, w)
  lockdownd_receive client plist w = done (LockdownError.invalid_arg, none, w)

  -- A request and its answer, where the error of the sending is not looked at.
  abbrev pub asked : LockdownClient → P → W → Outcome (LockdownError × Option P × W)
  asked client plist w =
      let (e, w') = lockdownd_send (some client) (some plist) w in
      lockdownd_receive (some client) (some none) w'

  -- A request and its answer, where the sending has to succeed; the answer is there with success.
  abbrev pub asked_checked : LockdownClient → P → W → Outcome (LockdownError × Option P × W)
  asked_checked client plist w =
      let (e, w') = lockdownd_send (some client) (some plist) w in
      let answer = lockdownd_receive (some client) (some none) w' in
      if is_success e then answer else done (e, none, w')

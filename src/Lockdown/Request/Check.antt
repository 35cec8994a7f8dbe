-- ===== src/Lockdown/Request/Check.antt =====
-- src/lockdown.c: what lockdown_check_result looks for.
use libiphone_debian.Common.{arith, none, some, true, Option, Bool-cases, inl, inr, ◌≡◌, refl, ap}
use libiphone_debian.Common.CString.{CString, string_eq, string_eq→eq, string_eq_refl}
use libiphone_debian.Plist.{Node, PlistNodes, get_item}
use libiphone_debian.Lockdown.Request.{
  CheckResult, lockdown_check_result, matches, result_of, node_matches, node_result, result_value,
}
use libiphone_debian.Lockdown.Strings.{request_text, result_text, success_text}

-- The dictionary has the string `text` under the key.
pub record Holds {P : Type 0} (nodes : PlistNodes P) (answer : P) (key text : CString)
    : Type 0 where
  pub node : P
  pub found : get_item nodes answer key ≡ some node
  pub view_node : nodes.view node ≡ Node.string text

-- An answer to a request, with a result.
pub record IsAnswer {P : Type 0} (nodes : PlistNodes P) (answer : P) (query result : CString)
    : Type 0 where
  pub query_held : Holds nodes answer request_text query
  pub result_held : Holds nodes answer result_text result

node_matches→eq :
    {P : Type 0} (query : CString) (n : Node P)
    → node_matches (some query) n ≡ true
    → n ≡ Node.string query
node_matches→eq query (Node.string s) h = ap Node.string (string_eq→eq s query h)
node_matches→eq query (Node.array ps) h = cc
node_matches→eq query (Node.uint n) h = cc
node_matches→eq query (Node.boolean b) h = cc
node_matches→eq query (Node.bytes bs) h = cc
node_matches→eq query (Node.dict es) h = cc
node_matches→eq query Node.other h = cc

result_value→eq : (s : CString) → result_value s ≡ CheckResult.result_success → s ≡ success_text
result_value→eq s h = elim (Bool-cases (string_eq s success_text)) [
  | inl e ↦ string_eq→eq s success_text e
  | inr e ↦ ground (arith, h, e)
]

node_result→eq :
    {P : Type 0} (n : Node P)
    → node_result n ≡ CheckResult.result_success
    → n ≡ Node.string success_text
node_result→eq (Node.string s) h = ap Node.string (result_value→eq s h)
node_result→eq (Node.array ps) h = cc
node_result→eq (Node.uint n) h = cc
node_result→eq (Node.boolean b) h = cc
node_result→eq (Node.bytes bs) h = cc
node_result→eq (Node.dict es) h = cc
node_result→eq Node.other h = cc

module _ {P : Type 0} (nodes : PlistNodes P) where
  matches→Holds :
      (query : CString) (o : Option P)
      → matches nodes (some query) o ≡ true
      → (p : P) × (o ≡ some p) × (nodes.view p ≡ Node.string query)
  matches→Holds query none h = absurd (cc)
  matches→Holds query (some p) h = (p, refl, node_matches→eq query (nodes.view p) h)

  result_of→Holds :
      (o : Option P)
      → result_of nodes o ≡ CheckResult.result_success
      → (p : P) × (o ≡ some p) × (nodes.view p ≡ Node.string success_text)
  result_of→Holds none h = absurd (cc)
  result_of→Holds (some p) h = (p, refl, node_result→eq (nodes.view p) h)

  success→IsAnswer :
      (answer : P) (query : CString)
      → lockdown_check_result nodes (some answer) (some query) ≡ CheckResult.result_success
      → IsAnswer nodes answer query success_text
  unfolding lockdown_check_result
  success→IsAnswer answer query h =
      elim (Bool-cases (matches nodes (some query) (get_item nodes answer request_text))) [
        | inl e ↦
            let (p, f, v) = matches→Holds query (get_item nodes answer request_text) e in
            let (q, g, u) =
              result_of→Holds (get_item nodes answer result_text) (ground (arith, h, e)) in
            record {
              query_held = record { node = p; found = f; view_node = v };
              result_held = record { node = q; found = g; view_node = u };
            }
        | inr e ↦ absurd (ground (arith, h, e))
      ]

  -- The check of an answer is decided by the string that the answer has for its result.
  pub check_result-IsAnswer :
      (answer : P) (query result : CString)
      → IsAnswer nodes answer query result
      → lockdown_check_result nodes (some answer) (some query) ≡ result_value result
  unfolding lockdown_check_result
  check_result-IsAnswer answer query result h =
      rw
        (
          h.query_held.found,
          h.query_held.view_node,
          string_eq_refl query,
          h.result_held.found,
          h.result_held.view_node,
        )
        refl

  -- lockdown_check_result gives RESULT_SUCCESS for an answer and a query exactly if the answer has
  -- the query as the string under "Request", and the string "Success" under "Result".
  pub check_result_success :
      (answer : P) (query : CString)
      → (lockdown_check_result nodes (some answer) (some query) ≡ CheckResult.result_success
          → IsAnswer nodes answer query success_text)
        × (IsAnswer nodes answer query success_text
            → lockdown_check_result nodes (some answer) (some query) ≡ CheckResult.result_success)
  unfolding string_eq
  check_result_success answer query =
      (success→IsAnswer answer query, λ h. check_result-IsAnswer answer query success_text h)

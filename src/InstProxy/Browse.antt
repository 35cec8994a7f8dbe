-- ===== src/InstProxy/Browse.antt =====
-- src/installation_proxy.c: instproxy_browse and instproxy_lookup_archives.
use libiphone_debian.Common.{
  false, true, Bool, List, Option, ℕ, none, some, if◌then◌else◌, [], ◌∷◌, ◌++◌, not, is_some, zero,
  suc,
}
use libiphone_debian.Common.CString.{CString, string_eq}
use libiphone_debian.Common.Outcome.{Outcome, done, running, ◌>>=◌}
use libiphone_debian.Plist.{PlistNodes, get_item, string_value, items, uint_of}
use libiphone_debian.PropertyList.{PlistServiceError}
use libiphone_debian.InstProxy.{
  InstproxyError, InstproxyClient, InstproxyPort, instproxy_error, is_success, instproxy_lock,
  instproxy_unlock,
}
use libiphone_debian.InstProxy.Command.{instproxy_send_command}
use libiphone_debian.InstProxy.Strings.{
  current_amount_text, status_text, current_list_text, browsing_applications_text, browse_text,
  lookup_archives_text,
}

-- status is "BrowsingApplications"
abbrev is_browsing : Option CString → Bool
is_browsing none = false
is_browsing (some status) = string_eq status browsing_applications_text

-- `absent` is what libplist adds to an array for the copy of a node that is not there.
module _ {P W : Type 0} (nodes : PlistNodes P) (port : InstproxyPort P W) (absent : List P) where
  -- The nodes 0, 1 and so on of a list, as many as the amount says.
  abbrev collected : ℕ → List P → List P
  collected zero ps = []
  collected (suc n) [] = absent ++ collected n []
  collected (suc n) (p ∷ ps) = p ∷ collected n ps

  abbrev amount_in : Option P → ℕ
  amount_in none = 0
  amount_in (some p) = uint_of (nodes.view p)

  abbrev apps_in : ℕ → Option P → List P
  apps_in amount none = []
  apps_in amount (some current_list) = collected amount (items (nodes.view current_list))

  -- The applications that an answer lists.
  abbrev listed_in : P → List P
  listed_in dict =
      apps_in (amount_in (get_item nodes dict current_amount_text))
        (get_item nodes dict current_list_text)

  -- An answer ends the loop, or the device goes on browsing.
  abbrev browsed :
      (List P → W → Outcome (InstproxyError × List P × W))
      → List P
      → PlistServiceError × Option P × W
      → Outcome (InstproxyError × List P × W)
  browsed rest apps (e, none, w) = done (instproxy_error e, apps, w)
  browsed rest apps (e, some dict, w) =
      let again = rest (apps ++ listed_in dict) w in
      if not (is_success (instproxy_error e))
      then done (instproxy_error e, apps, w)
      else if is_browsing (string_value nodes (get_item nodes dict status_text))
      then again
      else done (InstproxyError.success, apps ++ listed_in dict, w)

  -- Each round takes one answer, and the fuel is the number of rounds.
  unfoldable pub browse_loop :
      ℕ → InstproxyClient → List P → W → Outcome (InstproxyError × List P × W)
  browse_loop zero client apps w = running
  browse_loop (suc fuel) client apps w =
      port.receive client.parent w >>= λ x. browsed (browse_loop fuel client) apps x

  -- The array of the applications is handed out with success.
  abbrev browse_left :
      InstproxyClient
      → InstproxyError × List P × W
      → InstproxyError × Option P × InstproxyClient × W
  browse_left held (e, apps, w) =
      (e, if is_success e then some (nodes.new_array apps) else none, instproxy_unlock held, w)

  abbrev browse_sent :
      ℕ
      → InstproxyClient
      → InstproxyError × W
      → Outcome (InstproxyError × Option P × InstproxyClient × W)
  browse_sent fuel held (e, w) =
      let browsing = browse_loop fuel held [] w >>= λ x. done (browse_left held x) in
      if is_success e then browsing else done (e, none, instproxy_unlock held, w)

  abbrev some_client :
      InstproxyError × Option P × InstproxyClient × W
      → InstproxyError × Option P × Option InstproxyClient × W
  some_client (e, result, client, w) = (e, result, some client, w)

  -- `wanted` says whether `result` is set.
  unfoldable pub browse :
      ℕ
      → InstproxyClient
      → Option P
      → Bool
      → W
      → Outcome (InstproxyError × Option P × InstproxyClient × W)
  browse fuel client options false w = done (InstproxyError.invalid_arg, none, client, w)
  browse fuel client options true w =
      let browsing = instproxy_lock client >>= λ held.
      browse_sent fuel held
        (instproxy_send_command nodes port (some held) (some browse_text) options none none w) in
      if is_some client.parent then browsing else done (InstproxyError.invalid_arg, none, client, w)

  abbrev looked_up :
      InstproxyClient
      → PlistServiceError × Option P × W
      → InstproxyError × Option P × InstproxyClient × W
  looked_up held (e, result, w) = (instproxy_error e, result, instproxy_unlock held, w)

  abbrev lookup_sent :
      InstproxyClient
      → InstproxyError × W
      → Outcome (InstproxyError × Option P × InstproxyClient × W)
  lookup_sent held (e, w) =
      let answer = port.receive held.parent w >>= λ x. done (looked_up held x) in
      if is_success e then answer else done (e, none, instproxy_unlock held, w)

  pub instproxy_browse :
      ℕ
      → Option InstproxyClient
      → Option P
      → Bool
      → W
      → Outcome (InstproxyError × Option P × Option InstproxyClient × W)
  instproxy_browse fuel none options wanted w = done (InstproxyError.invalid_arg, none, none, w)
  instproxy_browse fuel (some client) options wanted w =
      browse fuel client options wanted w >>= λ x. done (some_client x)

  pub lookup_archives :
      InstproxyClient
      → Option P
      → Bool
      → W
      → Outcome (InstproxyError × Option P × InstproxyClient × W)
  lookup_archives client options false w = done (InstproxyError.invalid_arg, none, client, w)
  lookup_archives client options true w =
      let answer = instproxy_lock client >>= λ held. lookup_sent held (
        instproxy_send_command nodes port (some held) (some lookup_archives_text) options none none
          w) in
      if is_some client.parent then answer else done (InstproxyError.invalid_arg, none, client, w)

  pub instproxy_lookup_archives :
      Option InstproxyClient
      → Option P
      → Bool
      → W
      → Outcome (InstproxyError × Option P × Option InstproxyClient × W)
  instproxy_lookup_archives none options wanted w = done (InstproxyError.invalid_arg, none, none, w)
  instproxy_lookup_archives (some client) options wanted w =
      lookup_archives client options wanted w >>= λ x. done (some_client x)

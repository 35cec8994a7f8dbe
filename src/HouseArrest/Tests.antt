-- ===== src/HouseArrest/Tests.antt =====
-- src/house_arrest.c: the examples.
use libiphone_debian.Common.{true, none, some, Option, [], ◌∷◌, ◌++◌, refl}
use libiphone_debian.Common.CString.{CString}
use libiphone_debian.Common.Outcome.{done}
use libiphone_debian.Idevice.Tests.{script_mux, idle_tls, plain, two_pieces}
use libiphone_debian.Channel.Script.{Script}
use libiphone_debian.Plist.Tree.{Tree, tree_nodes, table, blank}
use libiphone_debian.PropertyList.{PlistClient, PlistServiceError}
use libiphone_debian.DeviceLink.{PlistPort}
use libiphone_debian.Afc.Session.{afc_client_new_from_connection}
use libiphone_debian.Afc.Client.{Connected, owned_by_caller}
use libiphone_debian.HouseArrest.{ClientMode, afc_client_new_from_house_arrest_client}
use libiphone_debian.HouseArrest.Mode.{client_in, IsTaken, from_house_arrest_client-IsTaken}

-- A port that writes one byte for each plist.
abbrev script_port : PlistPort Tree Script
script_port = record {
  send =
      λ client plist w. (PlistServiceError.success, record w { outgoing = w.outgoing ++ (1 ∷ []) });
  receive = λ client before w. done (PlistServiceError.mux_error, none, w);
}

abbrev parent : PlistClient
parent = record { connection = some plain }

abbrev documents : CString
documents = b'V' ∷ []

abbrev taken : Option Connected
taken = owned_by_caller (afc_client_new_from_connection true).1 plain

from_house_arrest_client-IsTaken_example :
    IsTaken tree_nodes script_port script_mux idle_tls
      (some parent)
      taken
      (client_in ClientMode.afc (some parent))
      (some (table blank))
      (some documents)
      (some documents)
      (some none)
      two_pieces
unfolding afc_client_new_from_connection afc_client_new_from_house_arrest_client
from_house_arrest_client-IsTaken_example =
    from_house_arrest_client-IsTaken tree_nodes script_port script_mux idle_tls ClientMode.normal
      (some parent) taken (client_in ClientMode.afc (some parent)) (some (table blank))
      (some documents) (some documents) (some none) two_pieces refl

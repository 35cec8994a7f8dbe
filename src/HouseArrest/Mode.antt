-- ===== src/HouseArrest/Mode.antt =====
-- src/house_arrest.c: a client whose connection an AFC client has taken over.
use mathlib.Core.Path.{subst}
use libiphone_debian.Common.{ap, inr, inl, Bool-cases, false, Option, none, some, ◌≡◌, refl}
use libiphone_debian.HouseArrest.{
  is_dict, HouseArrestError, HouseArrestClient, ClientMode, is_success, held,
  house_arrest_send_request, house_arrest_send_command, house_arrest_get_result,
  house_arrest_client_free, afc_client_new_from_house_arrest_client,
}
use libiphone_debian.Common.CString.{CString}
use libiphone_debian.Common.Outcome.{done}
use libiphone_debian.Idevice.{Connection, Usbmuxd, Gnutls}
use libiphone_debian.Plist.{PlistNodes}
use libiphone_debian.PropertyList.{PlistClient}
use libiphone_debian.PropertyList.Client.{property_list_service_client_free}
use libiphone_debian.DeviceLink.{PlistPort}
use libiphone_debian.Afc.Error
use libiphone_debian.Afc.Session.{afc_client_new_from_connection}
use libiphone_debian.Afc.Client.{Connected, afc_client_free}

-- The call fails, and nothing is sent or received.
abbrev pub IsNothing : {W : Type 0} → HouseArrestError × W → W → Type 0
IsNothing (e, after) w = (is_success e ≡ false) × (after ≡ w)

abbrev pub client_in : ClientMode → Option PlistClient → HouseArrestClient
client_in mode parent = record { parent = parent; mode = mode }

module _ {P W : Type 0} (nodes : PlistNodes P) (port : PlistPort P W) where
  send_request-afc :
      (parent : Option PlistClient) (dict : Option P) (w : W)
      → IsNothing
          (house_arrest_send_request nodes port (some (client_in ClientMode.afc parent)) dict w)
          w
  unfolding house_arrest_send_request
  send_request-afc none none w = (refl, refl)
  send_request-afc none (some dict) w = (refl, refl)
  send_request-afc (some parent) none w = (refl, refl)
  send_request-afc (some parent) (some dict) w =
      elim (Bool-cases (is_dict nodes port (nodes.view dict))) [
        | inl t ↦ rw t (refl, refl)
        | inr f ↦ rw f (refl, refl)
      ]

  send_command-afc :
      (parent : Option PlistClient) (command appid : Option CString) (w : W)
      → IsNothing
          (house_arrest_send_command nodes port
            (some (client_in ClientMode.afc parent))
            command
            appid
            w)
          w
  unfolding house_arrest_send_command
  send_command-afc none none appid w = (refl, refl)
  send_command-afc none (some command) none w = (refl, refl)
  send_command-afc none (some command) (some appid) w = (refl, refl)
  send_command-afc (some parent) none appid w = (refl, refl)
  send_command-afc (some parent) (some command) none w = (refl, refl)
  send_command-afc (some parent) (some command) (some appid) w = (refl, refl)

  module _ (mux : Usbmuxd W) (tls : Gnutls W) where
    -- The client `left` refuses everything, and the connection closes once.
    abbrev pub IsTaken :
        Option PlistClient
        → Option Connected
        → HouseArrestClient
        → Option P
        → Option CString
        → Option CString
        → Option (Option P)
        → W
        → Type 0
    IsTaken parent taken left dict command appid result w =
        IsNothing (house_arrest_send_request nodes port (some left) dict w) w
        × IsNothing (house_arrest_send_command nodes port (some left) command appid w) w
        × (house_arrest_get_result nodes port (some left) result w
            ≡ done (HouseArrestError.invalid_mode, held nodes port result, w))
        × (afc_client_new_from_house_arrest_client (some left)
            ≡ (Error.invalid_arg, none, some left))
        × (house_arrest_client_free mux tls (some left) (afc_client_free mux tls taken w).1
            ≡ (HouseArrestError.success, (property_list_service_client_free mux tls parent w).1))

    -- What a client in its normal mode, whose parent has a connection, leaves.
    normal-IsTaken :
        (connection : Connection) (dict : Option P) (command appid : Option CString)
        (result : Option (Option P)) (w : W)
        → let parent : PlistClient = record { connection = some connection } in
          IsTaken
            (some parent)
            (afc_client_new_from_house_arrest_client
              (some (client_in ClientMode.normal (some parent)))).1
            (client_in ClientMode.afc (some parent))
            dict
            command
            appid
            result
            w
    unfolding afc_client_new_from_house_arrest_client afc_client_new_from_connection
        house_arrest_get_result house_arrest_client_free afc_client_free
    normal-IsTaken connection dict command appid result w =
        (send_request-afc _ dict w, send_command-afc _ command appid w, refl, refl, refl)

    over_connection :
        (mode : ClientMode) (connection : Option Connection) (taken : Option Connected)
        (left : HouseArrestClient) (dict : Option P) (command appid : Option CString)
        (result : Option (Option P)) (w : W)
        → let parent : PlistClient = record { connection = connection } in
          afc_client_new_from_house_arrest_client (some (client_in mode (some parent)))
            ≡ (Error.success, taken, some left)
          → IsTaken (some parent) taken left dict command appid result w
    unfolding afc_client_new_from_house_arrest_client afc_client_new_from_connection
    over_connection ClientMode.afc connection taken left dict command appid result w e = cc
    over_connection ClientMode.normal none taken left dict command appid result w e = cc
    over_connection ClientMode.normal (some connection) taken left dict command appid result w e =
        let parent : PlistClient = record { connection = some connection } in
        let same_client : client_in ClientMode.afc (some parent) ≡ left = cc in
        let same_taken : (afc_client_new_from_house_arrest_client
              (some (client_in ClientMode.normal (some parent)))).1
            ≡ taken =
          ap (λ x. x.1) e in
        subst (λ c. IsTaken (some parent) taken c dict command appid result w) same_client
          (subst
            (λ t.
              IsTaken (some parent) t (client_in ClientMode.afc (some parent)) dict command appid
                result w)
            same_taken (normal-IsTaken connection dict command appid result w))

    -- Where afc_client_new_from_house_arrest_client returns success, what it leaves of the
    -- house_arrest client refuses every further request and command with an error and without
    -- sending anything, every result with INVALID_MODE and without receiving anything, and a second
    -- AFC client with INVALID_ARG; and to free the AFC client and then the house_arrest client is to
    -- free the parent once, with property_list_service_client_free.
    pub from_house_arrest_client-IsTaken :
        (mode : ClientMode) (parent : Option PlistClient) (taken : Option Connected)
        (left : HouseArrestClient) (dict : Option P) (command appid : Option CString)
        (result : Option (Option P)) (w : W)
        → afc_client_new_from_house_arrest_client (some (client_in mode parent))
          ≡ (Error.success, taken, some left)
        → IsTaken parent taken left dict command appid result w
    unfolding afc_client_new_from_house_arrest_client afc_client_new_from_connection
    from_house_arrest_client-IsTaken mode none taken left dict command appid result w e = cc
    from_house_arrest_client-IsTaken mode (some parent) taken left dict command appid result w e =
        over_connection mode parent.connection taken left dict command appid result w e

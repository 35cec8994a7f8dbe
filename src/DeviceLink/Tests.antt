-- ===== src/DeviceLink/Tests.antt =====
-- src/device_link_service.c: the examples.
use libiphone_debian.Plist.Tree.{
  next_mail, posted, Tree, Mail, tree_nodes, tree_nodes-IsBuilt, listed, text, number, cons, nil,
  table, blank,
}
use libiphone_debian.Common.{arith, inl, refl, true, [], none, some, ◌∷◌, ◌≡◌}
use libiphone_debian.DeviceLink.Exchange.Versions.{
  version_exchange_accepts, version_exchange_refuses, IsAtMost,
}
use libiphone_debian.Common.Outcome.{done}
use libiphone_debian.DeviceLink.{DeviceLinkClient, DeviceLinkError, PlistPort}
use libiphone_debian.DeviceLink.Service.{
  device_link_service_receive_process_message, device_link_service_send_process_message, message_of,
}
use libiphone_debian.DeviceLink.Messages.{device_ready, process_message, version_exchange_message}
use libiphone_debian.DeviceLink.Exchange.{device_link_service_version_exchange, version_reply}
use libiphone_debian.DeviceLink.Service.Process.{receive_process_message-send_process_message}

abbrev an_empty_table : Tree
an_empty_table = table blank

abbrev pub mail_port : PlistPort Tree Mail
mail_port = record {
  send = λ c t w. posted t w;
  receive = λ c before w. done (next_mail w.inbox w.outbox);
}

abbrev pub linked : DeviceLinkClient
linked = record { parent = some (record { connection = none }) }

abbrev wrapped : Tree
wrapped = message_of tree_nodes mail_port process_message an_empty_table

abbrev empty_mail : Mail
empty_mail = record { inbox = []; outbox = [] }

receive_process_message-send_process_message_example :
    device_link_service_receive_process_message tree_nodes mail_port
      (some linked)
      true
      (record { inbox = wrapped ∷ []; outbox = [] })
    ≡ done (DeviceLinkError.success, some an_empty_table, empty_mail)
unfolding device_link_service_send_process_message
receive_process_message-send_process_message_example =
    receive_process_message-send_process_message tree_nodes tree_nodes-IsBuilt mail_port mail_port
      linked linked (λ w. w.outbox) an_empty_table wrapped empty_mail
      (record { inbox = []; outbox = wrapped ∷ [] }) (record { inbox = wrapped ∷ []; outbox = [] })
      empty_mail (λ c x u e. refl) refl refl refl refl

abbrev greeting : Tree
greeting = listed (cons (text version_exchange_message) (cons (number 300) (cons (number 0) nil)))

abbrev ready : Tree
ready = listed (cons (text device_ready) nil)

abbrev reply : Tree
reply = version_reply tree_nodes mail_port 400

version_exchange_accepts_example :
    device_link_service_version_exchange tree_nodes mail_port
      (some linked)
      400
      0
      (record { inbox = greeting ∷ (ready ∷ []); outbox = [] })
    ≡ done (DeviceLinkError.success, record { inbox = []; outbox = reply ∷ [] })
version_exchange_accepts_example =
    version_exchange_accepts tree_nodes mail_port linked 400 0 300 0 greeting (number 300)
      (number 0) ready [] [] (record { inbox = greeting ∷ (ready ∷ []); outbox = [] })
      (record { inbox = ready ∷ []; outbox = [] })
      (record { inbox = ready ∷ []; outbox = reply ∷ [] })
      (record { inbox = []; outbox = reply ∷ [] }) refl
      (record { cmd = text version_exchange_message; view_message = refl; view_name = refl }) refl
      refl (inl (omega arith)) refl refl
      (record { cmd = text device_ready; view_message = refl; view_name = refl })

too_new : ¬ (IsAtMost 300 0 200 9)
too_new h = ground arith

version_exchange_refuses_example :
    device_link_service_version_exchange tree_nodes mail_port
      (some linked)
      200
      9
      (record { inbox = greeting ∷ (ready ∷ []); outbox = [] })
    ≡ done (DeviceLinkError.bad_version, record { inbox = ready ∷ []; outbox = [] })
version_exchange_refuses_example =
    version_exchange_refuses tree_nodes mail_port linked 200 9 300 0 greeting (number 300)
      (number 0) [] (record { inbox = greeting ∷ (ready ∷ []); outbox = [] })
      (record { inbox = ready ∷ []; outbox = [] }) refl
      (record { cmd = text version_exchange_message; view_message = refl; view_name = refl }) refl
      refl too_new

-- ===== src/MobileBackup/Restore/Ending.antt =====
-- src/mobilebackup.c: the end of a restore and of the client behind it.
use libiphone_debian.Common.{
  sym, ◌∙◌, false, true, Bool, List, Option, none, some, ◌≡◌, refl, ap, [], ◌∷◌,
}
use mathlib.Core.Path.{subst}
use libiphone_debian.Common.CString.{CString, string_eq→eq}
use libiphone_debian.Common.Outcome.{
  fault, running, Outcome, done, bind_done, done_injective, ◌>>=◌,
}
use libiphone_debian.Idevice.{Usbmuxd, Gnutls}
use libiphone_debian.Plist.{PlistNodes, items, string_value}
use libiphone_debian.DeviceLink.{PlistPort}
use libiphone_debian.DeviceLink.Messages.{disconnect_message}
use libiphone_debian.DeviceLink.Client.{device_link_service_client_free}
use libiphone_debian.MobileBackup.{
  MobilebackupError, MobilebackupClient, mobilebackup_receive, mobilebackup_client_free,
}
use libiphone_debian.MobileBackup.Message.{mobilebackup_send_message}
use libiphone_debian.MobileBackup.Restore.{
  ended_by, completed, complete_sent, some_client, disconnect_name, dlmsg_name, is_disconnect,
  mobilebackup_send_restore_complete,
}
use libiphone_debian.MobileBackup.Strings.{backup_message_restore_complete_text}

module _ {P W : Type 0} (nodes : PlistNodes P) (port : PlistPort P W) where
  -- An array of two nodes, of which the first is the string "DLMessageDisconnect".
  pub data IsDisconnect (dlmsg : P) : Type 0 where
    array_of :
        (name reason : P)
        → items (nodes.view dlmsg) ≡ name ∷ (reason ∷ [])
        → string_value nodes (some name) ≡ some disconnect_message
        → IsDisconnect dlmsg

  named-IsDisconnect :
      (dlmsg name reason : P) (s : Option CString)
      → items (nodes.view dlmsg) ≡ name ∷ (reason ∷ [])
      → string_value nodes (some name) ≡ s
      → is_disconnect nodes port (some s) ≡ true
      → IsDisconnect dlmsg
  named-IsDisconnect dlmsg name reason none e f h = absurd (cc)
  named-IsDisconnect dlmsg name reason (some s) e f h =
      IsDisconnect.array_of name reason e (f ∙ ap some (string_eq→eq s disconnect_message h))

  listed-IsDisconnect :
      (dlmsg : P) (ps : List P)
      → items (nodes.view dlmsg) ≡ ps
      → is_disconnect nodes port (disconnect_name nodes port ps) ≡ true
      → IsDisconnect dlmsg
  listed-IsDisconnect dlmsg [] e h = absurd (cc)
  listed-IsDisconnect dlmsg (p ∷ []) e h = absurd (cc)
  listed-IsDisconnect dlmsg (p ∷ (q ∷ [])) e h = named-IsDisconnect dlmsg p q _ e refl h
  listed-IsDisconnect dlmsg (p ∷ (q ∷ (r ∷ ps))) e h = absurd (cc)

  module _ (mux : Usbmuxd W) (tls : Gnutls W) where
    -- The message went out, the device disconnected, and the parent was freed then.
    pub data IsEnded (client : MobilebackupClient) (w : W) : W → Type 0 where
      ended :
          (w1 w2 : W) (dlmsg : P)
          → mobilebackup_send_message nodes port
              (some client)
              (some backup_message_restore_complete_text)
              none
              w
            ≡ (MobilebackupError.success, w1)
          → mobilebackup_receive nodes port (some client) (some none) w1
            ≡ done (MobilebackupError.success, some dlmsg, w2)
          → IsDisconnect dlmsg
          → IsEnded client w (device_link_service_client_free mux tls client.parent w2).1

    -- The answer, by whether it is the end of the link.
    answer_ends :
        (flag : Bool) (client left : MobilebackupClient) (dlmsg : P) (w w1 w2 w3 : W)
        → mobilebackup_send_message nodes port
            (some client)
            (some backup_message_restore_complete_text)
            none
            w
          ≡ (MobilebackupError.success, w1)
        → mobilebackup_receive nodes port (some client) (some none) w1
          ≡ done (MobilebackupError.success, some dlmsg, w2)
        → is_disconnect nodes port (dlmsg_name nodes port (some dlmsg)) ≡ flag
        → ended_by nodes port mux tls client w2 flag ≡ (MobilebackupError.success, left, w3)
        → IsEnded client w w3 × (left.parent ≡ none)
    answer_ends true client left dlmsg w w1 w2 w3 sent came d h = (
      subst (IsEnded client w) (ap (λ x. x.2) h)
          (IsEnded.ended w1 w2 dlmsg sent came (listed-IsDisconnect dlmsg _ refl d)),
      sym (ap (λ x. x.1.parent) h),
    )
    answer_ends false client left dlmsg w w1 w2 w3 sent came d h = absurd (cc)

    completed_ends :
        (client left : MobilebackupClient) (e : MobilebackupError) (dlmsg : Option P)
        (w w1 w2 w3 : W)
        → mobilebackup_send_message nodes port
            (some client)
            (some backup_message_restore_complete_text)
            none
            w
          ≡ (MobilebackupError.success, w1)
        → mobilebackup_receive nodes port (some client) (some none) w1 ≡ done (e, dlmsg, w2)
        → completed nodes port mux tls client (e, dlmsg, w2) ≡ (MobilebackupError.success, left, w3)
        → IsEnded client w w3 × (left.parent ≡ none)
    completed_ends client left MobilebackupError.success none w w1 w2 w3 sent came h = absurd (cc)
    completed_ends client left MobilebackupError.success (some dlmsg) w w1 w2 w3 sent came h =
        answer_ends _ client left dlmsg w w1 w2 w3 sent came refl h
    completed_ends client left MobilebackupError.invalid_arg d w w1 w2 w3 sent came h = absurd (cc)
    completed_ends client left MobilebackupError.plist_error d w w1 w2 w3 sent came h = absurd (cc)
    completed_ends client left MobilebackupError.mux_error d w w1 w2 w3 sent came h = absurd (cc)
    completed_ends client left MobilebackupError.bad_version d w w1 w2 w3 sent came h = absurd (cc)
    completed_ends client left MobilebackupError.reply_not_ok d w w1 w2 w3 sent came h = absurd (cc)
    completed_ends client left MobilebackupError.unknown_error d w w1 w2 w3 sent came h =
        absurd (cc)

    complete_sent_ends :
        (client left : MobilebackupClient) (e : MobilebackupError) (w w1 w3 : W)
        → mobilebackup_send_message nodes port
            (some client)
            (some backup_message_restore_complete_text)
            none
            w
          ≡ (e, w1)
        → complete_sent nodes port mux tls client (e, w1)
          ≡ done (MobilebackupError.success, left, w3)
        → IsEnded client w w3 × (left.parent ≡ none)
    complete_sent_ends client left MobilebackupError.success w w1 w3 sent h =
        let ((e, dlmsg, w2), came, c) =
          bind_done (mobilebackup_receive nodes port (some client) (some none) w1) _ _ h in
        completed_ends client left e dlmsg w w1 w2 w3 sent came (done_injective _ _ c)
    complete_sent_ends client left MobilebackupError.invalid_arg w w1 w3 sent h = absurd (cc)
    complete_sent_ends client left MobilebackupError.plist_error w w1 w3 sent h = absurd (cc)
    complete_sent_ends client left MobilebackupError.mux_error w w1 w3 sent h = absurd (cc)
    complete_sent_ends client left MobilebackupError.bad_version w w1 w3 sent h = absurd (cc)
    complete_sent_ends client left MobilebackupError.reply_not_ok w w1 w3 sent h = absurd (cc)
    complete_sent_ends client left MobilebackupError.unknown_error w w1 w3 sent h = absurd (cc)

    orphan_free :
        (left : MobilebackupClient) (v : W)
        → left.parent ≡ none
        → mobilebackup_client_free nodes port mux tls (some left) v ≡ (MobilebackupError.success, v)
    unfolding mobilebackup_client_free
    orphan_free left v e = rw e refl

    done_some :
        (left : MobilebackupClient) (w : W)
        (o : Outcome (MobilebackupError × MobilebackupClient × W))
        → (o >>= λ x. done (some_client nodes port mux tls x))
          ≡ done (MobilebackupError.success, some left, w)
        → o ≡ done (MobilebackupError.success, left, w)
    done_some left w (done (e, c, u)) h = cc
    done_some left w (fault x) h = cc
    done_some left w running h = cc

    -- If mobilebackup_send_restore_complete returns success for a client, then the message was sent
    -- with success, the answer to it was an array of two nodes that begins with the string
    -- "DLMessageDisconnect", and the world that is left is the one behind freeing the parent once;
    -- to free the client that is left then does nothing more, and succeeds.
    pub send_restore_complete-IsEnded :
        (client left : MobilebackupClient) (w w3 v : W)
        → mobilebackup_send_restore_complete nodes port mux tls (some client) w
          ≡ done (MobilebackupError.success, some left, w3)
        → IsEnded client w w3
          × (mobilebackup_client_free nodes port mux tls (some left) v
              ≡ (MobilebackupError.success, v))
    unfolding mobilebackup_send_restore_complete
    send_restore_complete-IsEnded client left w w3 v h =
        let (e, w1) =
          mobilebackup_send_message nodes port (some client)
            (some backup_message_restore_complete_text) none w in
        let r = complete_sent_ends client left e w w1 w3 refl (done_some left w3 _ h) in
        (r.0, orphan_free left v r.1)

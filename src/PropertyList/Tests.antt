-- ===== src/PropertyList/Tests.antt =====
-- src/property_list_service.c: the examples. A plist is a number here; its binary form is
-- "bplist00" and the number, its XML form eight bytes of text and the number, in unary.
use libiphone_debian.Common.CString.{string_eq, IsCString}
use libiphone_debian.Common.Outcome.{fault, Returns, done, over_read}
use libiphone_debian.PropertyList.{PlistClient, PlistServiceError, Libplist}
use libiphone_debian.PropertyList.Receive.RoundTrip.{
  whole, piece, receive_plist-send_plist, IsFaithful,
}
use libiphone_debian.Common.{
  drop, none, refl, take, true, ◌<◌, ◌≤◌, ◌⊎◌, zero, arith, ◌-◌, some, suc, [], ap, length,
  replicate, List, length-replicate, ℕ, ◌++◌, ◌∷◌, ◌≡◌,
}
use libiphone_debian.Common.Bytes.{be_bytes, be_value, le_bytes}
use libiphone_debian.PropertyList.Receive.Ending.{IsReply, receive_plist-IsReply}
use libiphone_debian.PropertyList.Receive.{internal_plist_receive_timeout, bplist_magic}
use libiphone_debian.PropertyList.Send.{internal_plist_send, send_content}
use libiphone_debian.Channel.Script.{Script, script-IsReliable, script_channel}
use libiphone_debian.Idevice.{ConnectionType}

abbrev xml_start : List ℕ
xml_start = b'<' ∷ b'p' ∷ b'l' ∷ b'i' ∷ b's' ∷ b't' ∷ b'>' ∷ b'\n' ∷ []

abbrev unary_lib : Libplist ℕ
unary_lib = record {
  to_bin = λ p. bplist_magic ++ replicate p 1;
  to_xml = λ p. xml_start ++ replicate p 1;
  from_bin = λ bs. some (length bs - 8);
  from_xml = λ bs. some (length bs - 8);
}

ones-IsCString : (n : ℕ) → IsCString (replicate n 1)
ones-IsCString zero = tt
ones-IsCString (suc n) = (λ e. omega arith, ones-IsCString n)

length-unary : (n : ℕ) → length {A = ℕ} (replicate n 1) ≡ n
length-unary n = length-replicate n 1

unary_lib-IsFaithful : IsFaithful unary_lib
unfolding string_eq
unary_lib-IsFaithful = record {
  bin_back = λ p. ap some (omega (arith, length-unary p));
  xml_back = λ p. ap some (omega (arith, length-unary p));
  bin_magic = λ p. refl;
  xml_magic = λ p. refl;
  xml_IsCString = λ p. (
    (λ e. omega arith),
    (
      (λ e. omega arith),
      (
        (λ e. omega arith),
        (
          (λ e. omega arith),
          (
            (λ e. omega arith),
            ((λ e. omega arith), ((λ e. omega arith), ((λ e. omega arith), ones-IsCString p))),
          ),
        ),
      ),
    ),
  );
}

abbrev replicate_zero : ℕ → List ℕ
replicate_zero n = replicate n 0

length-replicate_zero : (n : ℕ) → length (replicate_zero n) ≡ n
length-replicate_zero n = length-replicate n 0

abbrev client : PlistClient
client = record {
  connection = some (record { type = ConnectionType.usbmuxd; socket = 4; ssl_data = none });
}

abbrev nothing : Script
nothing = record { incoming = []; outgoing = [] }

abbrev content : List ℕ
content = bplist_magic ++ (1 ∷ 1 ∷ [])

abbrev last_piece : Script
last_piece = record { incoming = drop 6 content ∷ []; outgoing = [] }

abbrev both_pieces : Script
both_pieces = record { incoming = take 6 content ∷ drop 6 content ∷ []; outgoing = [] }

abbrev framed : Script
framed = record {
  incoming = (0 ∷ 0 ∷ 0 ∷ 10 ∷ []) ∷ take 6 content ∷ drop 6 content ∷ [];
  outgoing = [];
}

sent_frame :
    (internal_plist_send unary_lib
      (λ c. script_channel)
      (some client)
      (some 2)
      true
      nothing).1.outgoing
    ≡ (0 ∷ 0 ∷ 0 ∷ 10 ∷ []) ++ content
unfolding internal_plist_send send_content be_bytes le_bytes
sent_frame = refl

receive_plist-send_plist_example :
    internal_plist_receive_timeout unary_lib
      (λ c. script_channel)
      (replicate_zero)
      (some client)
      (some none)
      10000
      framed
    ≡ done (PlistServiceError.success, some 2, nothing)
receive_plist-send_plist_example =
    receive_plist-send_plist unary_lib unary_lib-IsFaithful (λ c. script_channel)
      (λ c. script_channel) replicate_zero length-replicate_zero client client _ _ (λ w. w.outgoing)
      2 true none 10000 nothing framed both_pieces nothing (0 ∷ 0 ∷ 0 ∷ 10 ∷ []) content refl refl
      script-IsReliable (omega arith) (omega arith) sent_frame refl refl
      (piece (omega arith) (omega arith) refl
        (piece {w1 = nothing} (omega arith) (omega arith) refl (whole refl)))

receive_plist-IsReply_example :
    let head = (script_channel.receive_timeout 4 10000 framed).0 in
    let r =
      internal_plist_receive_timeout unary_lib
        (λ c. script_channel)
        replicate_zero
        (some client)
        (some none)
        10000
        framed in
    Returns (IsReply (length head) (be_value head) none) r
    ⊎ ((r ≡ fault over_read) × (4 ≤ length head) × (be_value head < 8))
receive_plist-IsReply_example =
    receive_plist-IsReply unary_lib (λ c. script_channel) replicate_zero length-replicate_zero
      client _ none 10000 framed refl

-- ===== src/Dpll/Monitor/Notifications.antt =====
-- monitorNtf (pkg/dpll/dpll.go): what one call of Receive brings. A message comes with what
-- ParseDeviceReplies or ParsePinReplies makes of it.
use np_linuxptp_daemon.Base.{◌≡◌, refl, List, [], ◌∷◌, ◌++◌, Option, none, some, All}
use np_linuxptp_daemon.Dpll.Netlink.{DeviceReply, PinReply}

-- DPLL_CMD_DEVICE_CHANGE_NTF and DPLL_CMD_PIN_CHANGE_NTF with their replies (`none` is an error of
-- the parser), and any other command.
pub data Message : Type 0 where
  device_change : Option (List DeviceReply) → Message
  pin_change : Option (List PinReply) → Message
  unhandled : Message

-- What `devices` and `pins` are after the round of one message; `none` is the return on an error.
unfoldable pub read_message : Message → Option (List DeviceReply × List PinReply)
read_message (device_change none) = none
read_message (device_change (some rs)) = some (rs, [])
read_message (pin_change none) = none
read_message (pin_change (some ps)) = some ([], ps)
read_message unhandled = some ([], [])

-- The loop over the messages, from the values of `devices` and `pins`.
unfoldable pub message_loop :
    List Message → List DeviceReply × List PinReply → Option (List DeviceReply × List PinReply)
message_loop [] r = some r
message_loop (m ∷ ms) r = elim (read_message m) [ none ↦ none | some r' ↦ message_loop ms r' ]

unfoldable pub read_messages : List Message → Option (List DeviceReply × List PinReply)
read_messages ms = message_loop ms ([], [])

abbrev pub IsRead : Message → Type 0
IsRead m = (r : List DeviceReply × List PinReply) × (read_message m ≡ some r)

message_loop_last :
    (ms : List Message) (m : Message) (r : List DeviceReply × List PinReply)
    → All IsRead ms
    → message_loop (ms ++ m ∷ []) r ≡ message_loop (m ∷ []) r
unfolding message_loop
message_loop_last [] m r h = refl
message_loop_last (n ∷ ms) m r ((r', e), h) = rw (e, message_loop) (message_loop_last ms m r' h)

-- Of the messages that one call of Receive brings only the last is used: where the parsers accept
-- every message, those before the last are parsed and forgotten.
pub read_messages_last :
    (ms : List Message) (m : Message)
    → All IsRead ms
    → read_messages (ms ++ m ∷ []) ≡ read_messages (m ∷ [])
unfolding read_messages
read_messages_last ms m h = message_loop_last ms m ([], []) h

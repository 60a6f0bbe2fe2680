-- ===== src/Mqueue.antt =====
-- mqueue.c: messages between processes, as pairs of a header and a body in a window property.
-- Parameters are how a header lies in memory, the size of `unsigned long` as the number of its
-- values, the window that lookup_window gets for an XID from GDK, and the data that gdk_property_get
-- returns. A fault, `none`, is a read behind these data
-- or a write behind a heap block.
pub mod Framing
use maketool.Common.{
  ℕ, zero, suc, ◌+◌, ◌-◌, ◌%◌, Option, none, some, List, [], ◌∷◌, ◌++◌, length, take, drop, ltb,
  if◌then◌else◌, ◌>>=◌, Bytes,
}
use maketool.Estring.{Estring, init, text, append_chars}

-- MessageHeader
pub record MessageHeader : Type 0 where
  pub hdr_msgid : ℕ
  pub hdr_from : ℕ
  pub hdr_length : ℕ

-- Message
pub record Message : Type 0 where
  pub msgid : ℕ
  pub from : ℕ
  pub body : Bytes

-- the header that mq_send writes
unfoldable pub header_of : Message → MessageHeader
header_of msg = record { hdr_msgid = msg.msgid; hdr_from = msg.from; hdr_length = length msg.body }

-- the estring `bits` of mq_send
unfoldable pub message_bits : (MessageHeader → Bytes) → Message → Option Estring
message_bits encode msg = append_chars init (encode (header_of msg)) >>= λ bits.
    if ltb 0 (length msg.body) then append_chars bits msg.body else some bits

-- mq_send: last_msgid and the property behind it
unfoldable pub mq_send : (MessageHeader → Bytes) → ℕ → ℕ → Bytes → ℕ × Bytes → Option (ℕ × Bytes)
unfolding message_bits
mq_send encode limit self body (last_msgid, property) =
    let id = (last_msgid + 1) % limit in
    message_bits encode (record { msgid = id; from = self; body = body }) >>= λ bits.
    some (id, property ++ text bits)

-- mq_msg_new_d on the data behind a header, and the fields that mq_message_event sets
unfoldable pub new_message : (ℕ → ℕ) → MessageHeader → Bytes → Option Message
new_message window hdr bytes =
    if ltb (length bytes) hdr.hdr_length
    then none
    else some (record {
      msgid = hdr.hdr_msgid;
      from = window hdr.hdr_from;
      body = take hdr.hdr_length bytes;
    })

-- the loop of mq_message_event, on what is left of the data with its trailing byte
unfoldable pub parse_messages :
    ℕ → (Bytes → MessageHeader) → (ℕ → ℕ) → ℕ → Bytes → Option (List Message)
parse_messages size decode window zero bytes = none
parse_messages size decode window (suc fuel) bytes =
    let hdr = decode (take size bytes) in
    let behind = drop size bytes in
    let rest = parse_messages size decode window fuel (drop hdr.hdr_length behind) in
    if ltb size (length bytes - 1)
    then (new_message window hdr behind >>= λ msg. rest >>= λ msgs. some (msg ∷ msgs))
    else some []

-- mq_message_event, where gdk_property_get finds `property`: of it, at most 1024 units of four bytes
-- are asked for; a header is not empty, so every round but the last takes data away, and this fuel
-- is enough
unfoldable pub mq_message_event :
    ℕ
    → (Bytes → MessageHeader)
    → (ℕ → ℕ)
    → (ℕ → Bytes → Bytes)
    → Bytes
    → List Message
    → Option (List Message)
mq_message_event size decode window get property receiveq =
    let bytes = get 1024 property in
    parse_messages size decode window (suc (length bytes)) bytes >>= λ msgs. some (receiveq ++ msgs)

-- mq_receive: the first message of the queue, if there is one, and the queue without it
unfoldable pub mq_receive : List Message → Option Message × List Message
mq_receive [] = (none, [])
mq_receive (msg ∷ receiveq) = (some msg, receiveq)

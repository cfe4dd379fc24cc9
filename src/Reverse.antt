-- ===== src/Reverse.antt =====
-- reverse.go and reverse_server.go: connections that the server dials through a client. What both
-- ends share. A frame that is sent is kept decoded, with the channel that it is meant for.
pub mod Client
pub mod Server
pub mod Negotiation
pub mod Copies
pub mod Warmed
pub mod Listeners
pub mod Manager
mod Tests
use xtunnel.Base.{ℕ, ◌%◌, ◌^◌, Bool, ◌&&◌, Option, List, [], ◌∷◌, ◌==◌, ltb, Bytes}
use xtunnel.Protocol.Wire.{slice, put_u32, u32}
use xtunnel.Protocol.Message.{MessageType, Message}

-- A frame handed to the write queues: to one channel, or to all where there is none.
pub record Send : Type 0 where
  pub to : Option ℕ
  pub frame : Message

-- An int32 that holds a channel's number is its 32 bits, of which the highest is the sign.
abbrev pub is_positive : ℕ → Bool
is_positive bits = ltb 0 bits && ltb bits (2 ^ 31)

-- `int(bits) == chID`
abbrev pub is_channel : ℕ → ℕ → Bool
is_channel bits ch = bits == ch && ltb bits (2 ^ 31)

-- `int32(ch)`
abbrev pub to_int32 : ℕ → ℕ
to_int32 ch = ch % 2 ^ 32

abbrev pub message : MessageType → Bytes → Bytes → Bytes → Message
message t id meta payload = record { kind = t; conn_id = id; meta = meta; payload = payload }

-- The channel that a selection frame names, read from four bytes of meta.
abbrev pub named_channel : Bytes → ℕ
named_channel meta = u32 (slice meta 0 4)

abbrev pub channel_meta : ℕ → Bytes
channel_meta ch = put_u32 ch

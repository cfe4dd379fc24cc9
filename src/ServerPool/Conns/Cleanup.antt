-- ===== src/ServerPool/Conns/Cleanup.antt =====
-- server_pool.go: cleanupChannel, on forward connections, channels and warmed pairs. What it does to
-- reverse connections is in Reverse/Server, and ShutdownClient in Reverse/Manager.
pub mod Cleared
use xtunnel.Base.{
  ℕ, zero, suc, Bool, true, false, not, ◌&&◌, ◌||◌, Option, none, some, List, [], ◌∷◌, ◌==◌,
  if◌then◌else◌, Bytes, bytes_eq,
}
use xtunnel.Base.Dict.{text_eq}
use xtunnel.HotPairTable.{invalidate_client, invalidate_channel}
use xtunnel.ServerPool.Conns.{Conn, Channel, Server, unregister_conn}

-- Only connections of the channel's client: other clients use the same numbers.
abbrev pub uses : Bytes → ℕ → Conn → Bool
uses client ch c = bytes_eq c.client client && (c.uplink == ch || c.downlink == ch)

unfoldable pub to_close : Bytes → ℕ → (ℕ → Conn) → List (Bytes × ℕ) → List Bytes
to_close client ch heap [] = []
to_close client ch heap ((id, a) ∷ conns) =
    let rest = to_close client ch heap conns in if uses client ch (heap a) then id ∷ rest else rest

unfoldable pub unregister_all : List Bytes → Server → Server
unregister_all [] s = s
unregister_all (id ∷ ids) s = unregister_all ids (unregister_conn id s)

-- `len(m) > 0` for the client's map, whose keys are from `i` on, over `left` numbers.
unfoldable pub has_channel_from : ℕ → ℕ → Bytes → (Bytes → ℕ → Option Channel) → Bool
has_channel_from zero i client channels = false
has_channel_from (suc left) i client channels =
    let rest = has_channel_from left (suc i) client channels in
    elim (channels client i) [ some w ↦ true | none ↦ rest ]

-- handleWebSocket lets no other number in.
abbrev pub has_channel : Bytes → (Bytes → ℕ → Option Channel) → Bool
has_channel client channels = has_channel_from 65535 1 client channels

abbrev pub without_channel : Bytes → ℕ → (Bytes → ℕ → Option Channel) → Bytes → ℕ → Option Channel
without_channel client ch channels c i = if bytes_eq c client && i == ch then none else channels c i

-- Entries of `p.wsConns` that agree in all that is modelled are not told apart.
abbrev pub same_channel : Channel → Channel → Bool
same_channel v w =
    (bytes_eq v.client w.client && v.ch == w.ch)
    && (v.closed && w.closed || not (v.closed || w.closed))

unfoldable pub remove_socket : Channel → List Channel → List Channel
remove_socket w [] = []
remove_socket w (v ∷ sockets) = if same_channel v w then sockets else v ∷ remove_socket w sockets

abbrev pub without_socket : Option Channel → List Channel → List Channel
without_socket none sockets = sockets
without_socket (some w) sockets = remove_socket w sockets

-- The websocket that is closed in the end: the one that the map had, unless it was closed already.
abbrev pub still_open : Option Channel → Option Channel
still_open none = none
still_open (some w) = if w.closed then none else some w

pub record Cleaned : Type 0 where
  pub gone : Bool
  pub closes : Option Channel
  pub server : Server

abbrev pub forget_pairs : Bool → Bytes → ℕ → Server → Server
forget_pairs gone client ch s = record s {
  hot_pairs =
      if gone then invalidate_client client s.hot_pairs else invalidate_channel ch s.hot_pairs;
}

-- The section under the lock.
abbrev pub take_channel : Bytes → ℕ → Server → Server
take_channel client ch s = record s {
  channels = without_channel client ch s.channels;
  sockets = without_socket (s.channels client ch) s.sockets;
}

abbrev pub client_gone : Bytes → ℕ → Server → Bool
client_gone client ch s =
    has_channel client s.channels && not (has_channel client (without_channel client ch s.channels))

unfoldable pub cleanup_channel : Bytes → ℕ → Server → Cleaned
cleanup_channel client ch s =
    let gone = client_gone client ch s in
    let taken = take_channel client ch s in
    let closed = unregister_all (to_close client ch s.heap s.conns) taken in
    record {
      gone = gone;
      closes = still_open (s.channels client ch);
      server = forget_pairs gone client ch closed;
    }

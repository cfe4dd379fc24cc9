-- ===== src/ServerPool/Conns/Tests.antt =====
-- A server with one client on small examples.
use xtunnel.Base.{
  List, Bool, ◌⊎◌, ◌≡◌, ◌++◌, inl, inr, refl, sym, ℕ, Bool-cases, bytes_eq, bytes_eq_iff, arith,
  true, false, ◌||◌, Option, none, some, [], ◌∷◌, ◌==◌, if◌then◌else◌, Bytes, codes,
}
use xtunnel.Base.Dict.{get, text_eq}
use xtunnel.Protocol.Message.{msg_tcp_close}
use xtunnel.ServerPool.Admission.{
  Limits, admitted, new_channel, is_full, count_open, register, handle_web_socket,
}
use xtunnel.ServerPool.Admission.Admits.{IsReply, handle_web_socket-IsReply}
use xtunnel.ServerPool.Conns.{
  Conn, Channel, Server, absent, send_downlink, shut_conn, channel_alive, unregister_conn,
}
use xtunnel.ServerPool.Conns.Handlers.{
  handle_tcp_connect, handle_tcp_data, forward_end, attach_target, deliver,
}
use xtunnel.ServerPool.Conns.Steps.{Step, Reach, here, next, tcp_connect, tcp_data, IsSmall}
use xtunnel.ServerPool.Conns.Safety.{Reach-IsSmall}
use xtunnel.ServerPool.Conns.Ends.{forward_end_silent}
use xtunnel.ServerPool.Conns.Udp.{Resolver}
use xtunnel.ServerPool.Conns.Udp.Copies.{hear_connect}
use xtunnel.ServerPool.Conns.Cleanup.{cleanup_channel}
use xtunnel.ServerPool.Conns.Cleanup.Cleared.{IsOwner, IsOn, cleanup_channel_lem}
use xtunnel.ServerPool.Admission.Takeover.{cleanup_channel_takeover}
use xtunnel.ServerPool.Conns.Data.{late_data_overtake}

abbrev bob : Bytes
bob = codes "bob"

-- Channels 1 and 2 are bob's.
abbrev channel_of : Bytes → ℕ → Option Channel
channel_of client ch =
    if ch == 1 || ch == 2 then some (record { client = bob; ch = ch; closed = false }) else none

abbrev dialed : Conn
dialed = record {
  conn_id = codes "c1";
  target = codes "host:80";
  uplink = 1;
  downlink = 0;
  strategy = 0;
  client = bob;
  connected = false;
  closed = false;
  socket = absent;
  udp = absent;
  pending = (7 ∷ []) ∷ [];
  written = [];
}

abbrev server : Server
server = record {
  heap = λ _. dialed;
  next = 1;
  conns = (codes "c1", 0) ∷ [];
  channels = channel_of;
  sockets = record { client = bob; ch = 1; closed = false } ∷ [];
  hot_pairs = [];
  dialing = 0 ∷ [];
  sent = [];
}

abbrev after_data : Server
after_data = handle_tcp_data true 1 (codes "c1") (8 ∷ []) server

abbrev after_connect : Server
after_connect = handle_tcp_connect 0 bob 2 (codes "c2") (0 ∷ codes "host:81") after_data

server-after_connect : Reach server after_connect
server-after_connect =
    let s1 : Step server after_data = tcp_data true 1 (codes "c1") (8 ∷ []) refl in
    let s2 : Step after_data after_connect =
      tcp_connect 0 bob 2 (codes "c2") (0 ∷ codes "host:81") refl in
    next (next here s1) s2

dialed-IsSmall : (b : ℕ) → IsSmall (server.heap b)
dialed-IsSmall b = omega arith

Reach-IsSmall_example : IsSmall (after_connect.heap 0)
Reach-IsSmall_example = Reach-IsSmall server-after_connect dialed-IsSmall 0

forward_end_silent_example :
    ((send_downlink (codes "c1") msg_tcp_close [] [] (unregister_conn (codes "c1") server)).0
      ≡ false)
    × ((forward_end 0 server).sent ≡ [])
    × (get (codes "c1") (forward_end 0 server).conns ≡ none)
forward_end_silent_example = forward_end_silent 0 server

server_found : get (codes "c1") server.conns ≡ some 0
unfolding get
server_found = refl

late_data_overtake_example :
    ((attach_target 0 server).0 ≡ some ((7 ∷ []) ∷ []))
    × (((deliver true 0
            (codes "c1")
            (7 ∷ [])
            (handle_tcp_data true 1 (codes "c1") (8 ∷ []) (attach_target 0 server).1)).heap
          0).written
        ≡ [] ++ ((8 ∷ []) ∷ (7 ∷ []) ∷ []))
late_data_overtake_example =
    late_data_overtake 0 1 (codes "c1") (7 ∷ []) (8 ∷ []) server server_found refl refl refl

abbrev limits : Limits
limits = record { max_total = 4; max_per_client = 2 }

handle_web_socket-IsReply_example :
    let r = handle_web_socket limits true true bob none server in
    IsReply limits bob none server r.0 r.1
handle_web_socket-IsReply_example = handle_web_socket-IsReply limits true true bob none server

server-IsOwner : IsOwner (codes "c1") 0 server
unfolding get
server-IsOwner j h = elim (Bool-cases (bytes_eq (codes "c1") j)) [
  | inl hit ↦ sym ((bytes_eq_iff (codes "c1") j).0 hit)
  | inr miss ↦ absurd (cc (rw miss at h))
]

cleanup_channel_lem_example :
    let t = (cleanup_channel bob 1 server).server in
    (IsOn bob 1 dialed × (get (codes "c1") t.conns ≡ none) × (t.heap 0 ≡ shut_conn dialed))
    ⊎ (¬ (IsOn bob 1 dialed) × (get (codes "c1") t.conns ≡ some 0) × (t.heap 0 ≡ dialed))
cleanup_channel_lem_example =
    cleanup_channel_lem bob 1 (codes "c1") 0 server (tt, tt) server_found server-IsOwner

-- Channel 1 of bob's is closed and not cleaned up.
abbrev closed_one : Channel
closed_one = record { client = bob; ch = 1; closed = true }

abbrev stale : Server
stale = record server { channels = λ c ch. some closed_one; sockets = closed_one ∷ [] }

abbrev taken_over : Server
taken_over = (register limits bob 1 stale).1

stale_room : is_full limits bob stale ≡ false
unfolding count_open
stale_room = refl

cleanup_channel_takeover_example :
    let k = cleanup_channel bob 1 taken_over in
    ((register limits bob 1 stale).0 ≡ admitted)
    × (taken_over.channels bob 1 ≡ some (new_channel bob 1))
    × (k.closes ≡ some (new_channel bob 1))
    × (channel_alive bob 1 k.server ≡ false)
cleanup_channel_takeover_example =
    cleanup_channel_takeover limits bob 1 closed_one stale taken_over refl refl stale_room refl

abbrev resolver : Resolver
resolver target strategy = some target

-- The request comes on channel 1 first, where the server gets no socket, and then on 2 and on 1.
abbrev copies : List (ℕ × Bool)
copies = (1, false) ∷ (2, true) ∷ (1, true) ∷ []

abbrev heard : Server
heard = hear_connect bob (codes "u1") (0 ∷ codes "dns:53") copies server

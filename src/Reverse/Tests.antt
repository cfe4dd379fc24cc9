-- ===== src/Reverse/Tests.antt =====
-- Reverse connections on small examples.
use xtunnel.Base.{
  ℕ, zero, map, ◌<◌, ◌≤◌, ◌≡◌, ◌^◌, inl, inr, refl, Bool, true, false, Option, none, some, List, [],
  ◌∷◌, ◌==◌, ==_iff, arith, if◌then◌else◌, codes, Bytes,
}
use xtunnel.Base.Dict.{get, text_eq}
use xtunnel.HotPairTable.{HotPairEntry}
use xtunnel.PairWarmer.Store.{ready, pos, unassigned, Warmer}
use xtunnel.PairWarmer.Notices.{lookup_ready, find_ready}
use xtunnel.Reverse.{message}
use xtunnel.Reverse.Client.{
  opened, Client, new_conn, dialled, handle_reverse_server_msg, handle_reverse_tcp_connect,
}
use xtunnel.Reverse.Client.Leak.{Event, channel_fails, reads, run, close_during_dial_leaks}
use xtunnel.Reverse.Server.{unset, ServerReverseConn, Server, new_server_reverse_conn, settle}
use xtunnel.Reverse.Server as Server
use xtunnel.Reverse.Server.Dialer.{Channels, connect_frame, dial_start}
use xtunnel.Reverse.Server.Outcome.{Says, run-Says}
use xtunnel.Reverse.Server.Outcome as Outcome
use xtunnel.Reverse.Negotiation.{
  Agree, IsFixed, hear, answer, client_after, server_after, negotiate-Agree,
}
use xtunnel.Reverse.Warmed.{late_request_redials, warmed_dial-Agree}
use xtunnel.Protocol.ConnId.{hot_pair_conn_id}
use xtunnel.Reverse.Listeners.Stable.{retarget, registration_repeats}
use xtunnel.Reverse.Manager.{Manager, Spec, new_manager, handle_reverse_listen}
use xtunnel.Reverse.Manager.Bounded.{IsBounded, listens, leaves, run-IsBounded}
use xtunnel.Reverse.Manager.Bounded as Bounded
use xtunnel.Reverse.Manager.Told.{has_listener, handle_reverse_listen_told}
use xtunnel.Reverse.Listeners.{
  ReverseListenerState, Listeners, reverse_on_channel_ready, handle_reverse_listen_result,
}
use xtunnel.Protocol.Message.{Message, msg_tcp_close}

abbrev id : Bytes
id = codes "c1"

-- A connection at address 0 of either end: asked for on channel 3, with nothing chosen.
abbrev client : Client
client = record {
  store = λ a. new_conn (codes "host:1") (codes "host:1") 3;
  conns = (id, 0) ∷ [];
  next = 1;
}

abbrev server : Server
server = record {
  store = λ a. new_server_reverse_conn (codes "client") (codes "host:1");
  conns = (id, 0) ∷ [];
  next = 1;
}

known : get id client.conns ≡ some 0
unfolding get
known = refl

served : get id server.conns ≡ some 0
unfolding get
served = refl

negotiate-Agree_example :
    ((hear id 3 (2 ∷ 5 ∷ 3 ∷ []) server).0 ≡ answer 0 0 2 3 id (5 ∷ 3 ∷ []) server client ∷ [])
    × Agree
        ((client_after 0 0 2 3 id (5 ∷ 3 ∷ []) server client).store 0)
        ((server_after 0 0 2 3 id (5 ∷ 3 ∷ []) server client).store 0)
    × IsFixed ((server_after 0 0 2 3 id (5 ∷ 3 ∷ []) server client).store 0)
negotiate-Agree_example =
    negotiate-Agree 0 0 2 3 id (5 ∷ 3 ∷ []) server client served known (inl (refl, refl)) refl refl
      (omega arith) (omega arith) (omega arith)

-- The server receives on channel 2.
abbrev chosen : Server
chosen = record server { store = λ a. record (server.store a) { send_ch = 3; recv_ch = 2 } }

abbrev events : List Event
events = channel_fails 3 ∷ reads none 0 id ∷ []

close_during_dial_leaks_example :
    ((run events
        (dialled true 0 id
          (handle_reverse_server_msg true 3
            (message msg_tcp_close id [] [])
            client).client).1).store
      0).conn
    ≡ opened
close_during_dial_leaks_example = close_during_dial_leaks 0 3 id events client known

-- The dial succeeded, and a late time-out comes.
abbrev settled : Server
settled = record server {
  store = λ a. record (server.store a) { settled = true; ok = true; err_msg = unset };
}

run-Says_example :
    Says true unset ((Outcome.run (Outcome.ends Server.Dialer.timer 0 id ∷ []) settled).store 0)
run-Says_example =
    run-Says (Outcome.ends Server.Dialer.timer 0 id ∷ []) true unset 0 settled (refl, refl, refl)

-- A warmed pair that both ends know.
abbrev entry : HotPairEntry
entry = record { key = codes "prebind-a"; cha = 2; chb = 5; at = 0 }

abbrev warmer : Warmer
warmer = record {
  heap = λ a. record {
    slot = unassigned;
    prebind_id = codes "prebind-a";
    uplink = 2;
    downlink = 5;
    state = ready;
    refs = pos 0;
  };
  pairs = 0 ∷ [];
  primary = some 0;
  pair_count = 1;
}

abbrev channels : Channels
channels = record { alive = λ ch. true; takes = λ ch. true; takes_broadcast = true }

warmed : lookup_ready (codes "prebind-a") warmer ≡ some 0
unfolding lookup_ready find_ready
warmed = refl

free : get (hot_pair_conn_id (codes "prebind-a") (codes "u1")) client.conns ≡ none
unfolding get hot_pair_conn_id
free = refl

late_request_redials_example :
    (handle_reverse_tcp_connect
      (λ t. t)
      true
      (some warmer)
      4
      id
      (0 ∷ codes "host:1")
      (dialled false 0 id client).1).0
    ≡ some 1
late_request_redials_example =
    late_request_redials (λ t. t) (some warmer) 0 4 0 id (codes "host:1") client

warmed_dial-Agree_example :
    let d =
      dial_start channels (some entry) (codes "client") (codes "u1") (codes "host:1") server [] in
    let r =
      handle_reverse_tcp_connect (λ t. t) true (some warmer) 5 d.id (0 ∷ codes "host:1") client in
    (d.sends ≡ record { to = some 5; frame = connect_frame d.id (codes "host:1") } ∷ [])
    × (r.0 ≡ some 1)
    × (r.1 ≡ [])
    × Agree (r.2.store 1) (d.server.store 1)
unfolding xtunnel.Base.has_prefix
warmed_dial-Agree_example =
    warmed_dial-Agree (λ t. t) channels 0 warmer entry (codes "client") (codes "u1")
      (codes "host:1") server client [] (ground arith) refl (omega arith) warmed refl refl
      (omega arith) refl free

abbrev listeners : Listeners
listeners = record { ids = []; states = []; armed = false }

abbrev specs : List Bytes
specs = codes ":80" ∷ codes ":81" ∷ codes ":80" ∷ []

registration_repeats_example :
    reverse_on_channel_ready
      (λ s. codes "x")
      true
      specs
      2
      (reverse_on_channel_ready (λ s. s) true specs 1 listeners).1
    ≡ (
      map (retarget 2) (reverse_on_channel_ready (λ s. s) true specs 1 listeners).0,
      (reverse_on_channel_ready (λ s. s) true specs 1 listeners).1,
    )
registration_repeats_example = registration_repeats (λ s. s) (λ s. codes "x") specs 1 2 listeners

-- A manager that starts whatever it is asked for, with one listener for each client.
abbrev starts : Spec → Option Bytes
starts s = none

abbrev manager : Manager
manager = new_manager 1

abbrev wanted : Bytes
wanted = codes "http://:80"

run-IsBounded_example : IsBounded (
    Bounded.run
      (listens starts (codes "client") 1 id wanted
        ∷ listens starts (codes "client") 2 id (codes "socks5://u:p@:90")
        ∷ leaves (codes "other")
        ∷ [])
      manager)
run-IsBounded_example =
    run-IsBounded
      (listens starts (codes "client") 1 id wanted
        ∷ listens starts (codes "client") 2 id (codes "socks5://u:p@:90")
        ∷ leaves (codes "other")
        ∷ [])
      manager tt

abbrev asked : ReverseListenerState
asked = record { spec = wanted; ok = false; reason = []; responded = false }

abbrev asking : Listeners
asking = record listeners { states = (id, asked) ∷ [] }

recorded : get id asking.states ≡ some asked
unfolding get
recorded = refl

handle_reverse_listen_told_example :
    let r = handle_reverse_listen starts (codes "client") 4 id wanted manager in
    (answer : Message) × (after : ReverseListenerState) × (r.0
      ≡ record { to = some 4; frame = answer } ∷ [])
    × (get id (handle_reverse_listen_result answer.conn_id answer.meta asking).states ≡ some after)
    × (after.ok ≡ has_listener (codes "client") wanted r.1)
handle_reverse_listen_told_example =
    handle_reverse_listen_told starts (codes "client") 4 id wanted manager asking asked refl
      recorded

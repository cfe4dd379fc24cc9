-- ===== src/Reverse/Copies.antt =====
-- reverse.go and reverse_server.go: frames that are broadcast arrive on every channel. Which copies
-- count, and a dial over a warmed pair, which needs none.
use xtunnel.Base.{
  ℕ, ◌<◌, ◌^◌, ◌≡◌, inl, inr, refl, sym, subst, true, false, some, List, [], ◌∷◌, ◌++◌, ◌==◌,
  ==_iff, arith, ltb, if◌then◌else◌, Bytes, Bool-cases,
}
use xtunnel.Base.Dict.{get, text_eq}
use xtunnel.Protocol.Message.{Message, msg_tcp_data}
use xtunnel.PairWarmer.Primary.{Has, Lacks, Distinct}
use xtunnel.Reverse.{message}
use xtunnel.Reverse.Client.{
  ReverseConn, Client, handle_reverse_server_msg, on_tcp_data, add_reverse_conn,
  remove_reverse_conn, warmed_pair, connect_classic, connect_warmed, handle_reverse_tcp_connect,
  dialled,
}
use xtunnel.Reverse.Client as Client
use xtunnel.Reverse.Server.{ServerReverseConn, Server, handle_reverse_message}
use xtunnel.Reverse.Server as Server

abbrev pub data_frame : Bytes → Bytes → Message
data_frame id payload = message msg_tcp_data id [] payload

-- The copies of a frame of the client's in the order of their arrival, while the pipe takes writes.
unfoldable pub hear_data : Bytes → Bytes → List ℕ → Server → List Bytes × Server
hear_data id payload [] s = ([], s)
hear_data id payload (u ∷ channels) s =
    let e = handle_reverse_message true u (data_frame id payload) s in
    let rest = hear_data id payload channels e.server in (e.written ++ rest.0, rest.1)

-- The copies of a frame of the server's, likewise.
unfoldable pub receive_data : Bytes → Bytes → List ℕ → Client → List Bytes × Client
receive_data id payload [] c = ([], c)
receive_data id payload (u ∷ channels) c =
    let e = handle_reverse_server_msg true u (data_frame id payload) c in
    let rest = receive_data id payload channels e.client in (e.written ++ rest.0, rest.1)

on_data :
    (a u : ℕ) (id payload : Bytes) (s : Server)
    → get id s.conns ≡ some a
    → (s.store a).piped ≡ true
    → (s.store a).recv_ch < 2 ^ 31
    → handle_reverse_message true u (data_frame id payload) s ≡ record {
      written = if (s.store a).recv_ch == u then payload ∷ [] else [];
      sends = [];
      server = s;
    }
unfolding handle_reverse_message Server.on_tcp_data
on_data a u id payload s found open_pipe small = elim (Bool-cases ((s.store a).recv_ch == u)) [
  | inl here ↦
      let low : ltb (s.store a).recv_ch (2 ^ 31) ≡ true = ground (arith, small) in
      rw (handle_reverse_message, found, Server.on_tcp_data, here, low, open_pipe) refl
  | inr other ↦ rw (handle_reverse_message, found, Server.on_tcp_data, other) refl
]

hear_data-Lacks :
    (a : ℕ) (id payload : Bytes) (channels : List ℕ) (s : Server)
    → get id s.conns ≡ some a
    → (s.store a).piped ≡ true
    → (s.store a).recv_ch < 2 ^ 31
    → Lacks (s.store a).recv_ch channels
    → hear_data id payload channels s ≡ ([], s)
unfolding hear_data
hear_data-Lacks a id payload [] s found open_pipe small l = refl
hear_data-Lacks a id payload (u ∷ channels) s found open_pipe small l =
    let other : ((s.store a).recv_ch == u) ≡ false =
      ground (arith, ==_iff (s.store a).recv_ch u, ==_iff u (s.store a).recv_ch) in
    rw (on_data a u id payload s found open_pipe small, other)
      (hear_data-Lacks a id payload channels s found open_pipe small (ground arith))

-- Of the copies of a data frame that come on channels which differ, the server takes the one on its
-- receiving channel and no other: where that is among the channels, the application reads the
-- payload once.
pub hear_data_once :
    (a : ℕ) (id payload : Bytes) (channels : List ℕ) (s : Server)
    → get id s.conns ≡ some a
    → (s.store a).piped ≡ true
    → (s.store a).recv_ch < 2 ^ 31
    → Distinct channels
    → Has (s.store a).recv_ch channels
    → hear_data id payload channels s ≡ (payload ∷ [], s)
unfolding hear_data
hear_data_once a id payload [] s found open_pipe small d m = absurd (ground arith)
hear_data_once a id payload (u ∷ channels) s found open_pipe small d m =
    elim (Bool-cases ((s.store a).recv_ch == u)) [
      | inl here ↦
          let path : u ≡ (s.store a).recv_ch = sym ((==_iff (s.store a).recv_ch u).0 here) in
          let rest : Lacks (s.store a).recv_ch channels = subst (λ x. Lacks x channels) path d.0 in
          rw
            (
              on_data a u id payload s found open_pipe small,
              here,
              hear_data-Lacks a id payload channels s found open_pipe small rest,
            )
            refl
      | inr other ↦
          rw (on_data a u id payload s found open_pipe small, other)
            (hear_data_once a id payload channels s found open_pipe small d.1
              (ground (arith, ==_iff (s.store a).recv_ch u, ==_iff u (s.store a).recv_ch)))
    ]

receive_other :
    (a u : ℕ) (id payload : Bytes) (c : Client)
    → get id c.conns ≡ some a
    → ((c.store a).recv_ch == u) ≡ false
    → handle_reverse_server_msg true u (data_frame id payload) c ≡ Client.quiet c
unfolding handle_reverse_server_msg on_tcp_data
receive_other a u id payload c found other =
    rw (handle_reverse_server_msg, found, on_tcp_data, other) refl

-- A payload that the server broadcasts because its channel to the client did not take it is lost if
-- the copies come on the other channels only: the client writes none of them to the target.
pub fallback_copies_lost :
    (a : ℕ) (id payload : Bytes) (channels : List ℕ) (c : Client)
    → get id c.conns ≡ some a
    → Lacks (c.store a).recv_ch channels
    → receive_data id payload channels c ≡ ([], c)
unfolding receive_data
fallback_copies_lost a id payload [] c found l = refl
fallback_copies_lost a id payload (u ∷ channels) c found l =
    rw
      (receive_other a u id payload c found
        (ground (arith, ==_iff (c.store a).recv_ch u, ==_iff u (c.store a).recv_ch)))
      (fallback_copies_lost a id payload channels c found (ground arith))

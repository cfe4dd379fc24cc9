-- ===== src/ServerPool/Conns/Begins.antt =====
-- handler.go and server_pool.go: sending, unregistering, the cleanup of a channel and what begins a
-- connection leave the others the same ones.
use xtunnel.Base.{
  ℕ, ◌≤◌, ◌≡◌, inl, inr, refl, sym, subst, arith, Bool, true, false, ◌&&◌, Option, none, some, List,
  [], length, ◌∷◌, ◌==◌, ==_iff, Bytes, Bool-cases, Option-cases,
}
use xtunnel.Base.Dict.{get, delete, text_eq}
use xtunnel.HotPairTable.{HotPairEntry, lookup}
use xtunnel.Protocol.Message.{MessageType}
use xtunnel.Protocol.ConnId.{split_hot_pair_conn_id}
use xtunnel.ServerPool.Conns.{
  Conn, Server, channel_alive, send_to_channel, broadcast_write_to_client, send_downlink, shut_conn,
  unregister_conn,
}
use xtunnel.ServerPool.Conns.Handlers.{
  publish, new_conn, promote_by, promote, begin_dial, handle_tcp_connect, handle_prebind_request,
}
use xtunnel.ServerPool.Conns.Udp.{new_udp_conn, begin_udp_connect, publish_udp, forward_udp}
use xtunnel.ServerPool.Conns.Cleanup.{
  to_close, unregister_all, take_channel, client_gone, forget_pairs, cleanup_channel,
}
use xtunnel.ServerPool.Conns.Steps.{
  IsSmall, Keeps, Keeps-refl, Evolves, Evolves-trans, same-Evolves, set_conn-Evolves, Keeps-if,
  Evolves-if,
}

pub send_downlink_frame :
    (id : Bytes) (kind : MessageType) (meta payload : Bytes) (s : Server)
    → ((send_downlink id kind meta payload s).1.next ≡ s.next)
      × ((send_downlink id kind meta payload s).1.heap ≡ s.heap)
      × ((send_downlink id kind meta payload s).1.conns ≡ s.conns)
unfolding send_downlink send_to_channel broadcast_write_to_client
send_downlink_frame id kind meta payload s = ground arith

pub send_downlink-Evolves :
    (n : ℕ) (id : Bytes) (kind : MessageType) (meta payload : Bytes) (s : Server)
    → Evolves n s (send_downlink id kind meta payload s).1
send_downlink-Evolves n id kind meta payload s =
    let frame = send_downlink_frame id kind meta payload s in
    same-Evolves n s (send_downlink id kind meta payload s).1 frame.0 frame.1

pub shut_conn-Keeps : (c : Conn) → Keeps c (shut_conn c)
shut_conn-Keeps c = Keeps-if c.closed (Keeps-refl c) (record {
  id_kept = refl;
  target_kept = refl;
  uplink_kept = refl;
  client_kept = refl;
  downlink_kept = λ _. refl;
  closed_kept = λ h. refl;
  small_kept = λ h. h;
})

pub unregister_conn-Evolves : (n : ℕ) (id : Bytes) (s : Server) → Evolves n s (unregister_conn id s)
unfolding unregister_conn
unregister_conn-Evolves n id s = elim (Option-cases (get id s.conns)) [
  | inl missing ↦ rw (missing, unregister_conn) (same-Evolves n s s refl refl)
  | inr (a, found) ↦
      rw (found, unregister_conn)
        (Evolves-trans (same-Evolves n s (record s { conns = delete id s.conns }) refl refl) (
          set_conn-Evolves n a (shut_conn (s.heap a)) (record s { conns = delete id s.conns })
            (inl (shut_conn-Keeps (s.heap a)))))
]

pub publish-Evolves :
    (n : ℕ) (c : Conn) (s : Server) → n ≤ s.next → IsSmall c → Evolves n s (publish c s)
publish-Evolves n c s le small = record {
  grows = omega arith;
  changes = λ b. elim (Bool-cases (b == s.next)) [
    | inl hit ↦ rw hit (inr (omega (arith, le, (==_iff b s.next).0 hit), small))
    | inr miss ↦ rw miss (inl (Keeps-refl (s.heap b)))
  ];
}

pub promote_by-Evolves :
    (n : ℕ) (o : Option HotPairEntry) (client : Bytes) (ch : ℕ) (id : Bytes) (a : ℕ) (s : Server)
    → n ≤ a
    → IsSmall (s.heap a)
    → Evolves n s (promote_by o client ch id a s)
unfolding promote_by
promote_by-Evolves n none client ch id a s le small = send_downlink-Evolves n id _ _ _ s
promote_by-Evolves n (some e) client ch id a s le small =
    Evolves-if (e.cha == ch && channel_alive client e.chb s)
      (set_conn-Evolves n a (record (s.heap a) { downlink = e.chb }) s (inr (le, small)))
      (send_downlink-Evolves n id _ _ _ s)

pub promote-Evolves :
    (n now : ℕ) (client : Bytes) (ch : ℕ) (id : Bytes) (a : ℕ) (s : Server)
    → n ≤ a
    → IsSmall (s.heap a)
    → Evolves n s (promote now client ch id a s)
unfolding promote
promote-Evolves n now client ch id a s le small = elim (Option-cases (split_hot_pair_conn_id id)) [
  | inl plain ↦ rw (plain, promote) (send_downlink-Evolves n id _ _ _ s)
  | inr (cut, split) ↦
      let found = lookup now client cut.0 s.hot_pairs in
      rw (split, promote)
        (Evolves-trans (same-Evolves n s (record s { hot_pairs = found.1 }) refl refl)
          (promote_by-Evolves n found.0 client ch id a (record s { hot_pairs = found.1 }) le small))
]

pub new_conn-IsSmall :
    (client : Bytes) (ch : ℕ) (id target : Bytes) (strategy : ℕ) (connected : Bool) (s : Server)
    → IsSmall (new_conn client ch id target strategy connected s)
new_conn-IsSmall client ch id target strategy connected s = omega arith

pub published_here : (c : Conn) (s : Server) → (publish c s).heap s.next ≡ c
published_here c s = ground (arith, ==_iff s.next s.next)

pub handle_tcp_connect-Evolves :
    (now : ℕ) (client : Bytes) (ch : ℕ) (id meta : Bytes) (s : Server)
    → Evolves s.next s (handle_tcp_connect now client ch id meta s)
unfolding handle_tcp_connect
handle_tcp_connect-Evolves now client ch id [] s = send_downlink-Evolves s.next id _ _ _ s
handle_tcp_connect-Evolves now client ch id (strategy ∷ target) s =
    elim (Option-cases (get id s.conns)) [
      | inr (a, found) ↦ rw (found, handle_tcp_connect) (same-Evolves s.next s s refl refl)
      | inl missing ↦
          let c : Conn = new_conn client ch id target strategy false s in
          let small : IsSmall c = new_conn-IsSmall client ch id target strategy false s in
          let made : Server = publish c s in
          rw (missing, handle_tcp_connect)
            (Evolves-trans (publish-Evolves s.next c s (omega arith) small) (
              Evolves-trans
                (promote-Evolves s.next now client ch id s.next made (omega arith)
                  (subst IsSmall (sym (published_here c s)) small))
                (same-Evolves s.next (promote now client ch id s.next made)
                  (begin_dial s.next (promote now client ch id s.next made)) refl refl)))
    ]

pub handle_prebind_request-Evolves :
    (client : Bytes) (ch : ℕ) (id meta : Bytes) (s : Server)
    → Evolves s.next s (handle_prebind_request client ch id meta s)
unfolding handle_prebind_request
handle_prebind_request-Evolves client ch id [] s = same-Evolves s.next s s refl refl
handle_prebind_request-Evolves client ch id (strategy ∷ meta) s =
    elim (Option-cases (get id s.conns)) [
      | inr (a, found) ↦ rw (found, handle_prebind_request) (same-Evolves s.next s s refl refl)
      | inl missing ↦
          let c : Conn = new_conn client ch id [] strategy true s in
          rw (missing, handle_prebind_request)
            (Evolves-trans
              (publish-Evolves s.next c s (omega arith)
                (new_conn-IsSmall client ch id [] strategy true s))
              (send_downlink-Evolves s.next id _ _ _ (publish c s)))
    ]

pub begin_udp_connect-Evolves :
    (n : ℕ) (client : Bytes) (ch : ℕ) (id meta : Bytes) (s : Server)
    → Evolves n s (begin_udp_connect client ch id meta s).1
unfolding begin_udp_connect
begin_udp_connect-Evolves n client ch id [] s = send_downlink-Evolves n id _ _ _ s
begin_udp_connect-Evolves n client ch id (strategy ∷ target) s =
    elim (Option-cases (get id s.conns)) [
      | inr (a, found) ↦ rw (found, begin_udp_connect) (same-Evolves n s s refl refl)
      | inl missing ↦ rw (missing, begin_udp_connect) (same-Evolves n s s refl refl)
    ]

pub publish_udp-Evolves :
    (client : Bytes) (ch : ℕ) (id target : Bytes) (strategy : ℕ) (s : Server)
    → Evolves s.next s (publish_udp (new_udp_conn client ch id target strategy) s)
unfolding publish_udp
publish_udp-Evolves client ch id target strategy s =
    let c : Conn = new_udp_conn client ch id target strategy in
    elim (Option-cases (get id s.conns)) [
      | inr (a, found) ↦ rw (found, publish_udp) (same-Evolves s.next s s refl refl)
      | inl missing ↦
          rw (missing, publish_udp)
            (Evolves-trans (publish-Evolves s.next c s (omega arith) (omega arith))
              (send_downlink-Evolves s.next id _ _ _ (publish c s)))
    ]

pub forward_udp-Evolves :
    (n a : ℕ) (reply_addr payload : Bytes) (s : Server)
    → Evolves n s (forward_udp a reply_addr payload s)
unfolding forward_udp
forward_udp-Evolves n a reply_addr payload s =
    Evolves-if (length payload == 0) (same-Evolves n s s refl refl)
      (send_downlink-Evolves n (s.heap a).conn_id _ _ _ s)

unregister_all-Evolves :
    (n : ℕ) (ids : List Bytes) (s : Server) → Evolves n s (unregister_all ids s)
unfolding unregister_all
unregister_all-Evolves n [] s = same-Evolves n s s refl refl
unregister_all-Evolves n (id ∷ ids) s =
    Evolves-trans (unregister_conn-Evolves n id s)
      (unregister_all-Evolves n ids (unregister_conn id s))

pub cleanup_channel-Evolves :
    (n : ℕ) (client : Bytes) (ch : ℕ) (s : Server)
    → Evolves n s (cleanup_channel client ch s).server
unfolding cleanup_channel
cleanup_channel-Evolves n client ch s =
    let taken : Server = take_channel client ch s in
    let closed : Server = unregister_all (to_close client ch s.heap s.conns) taken in
    Evolves-trans (same-Evolves n s taken refl refl) (
      Evolves-trans (unregister_all-Evolves n (to_close client ch s.heap s.conns) taken)
        (same-Evolves n closed (forget_pairs (client_gone client ch s) client ch closed) refl refl))

-- ===== src/ServerPool/Conns/Ends.antt =====
-- handler.go: how a connection begins, gets its downlink and ends, forwardTargetToClient's deferred
-- calls included.
use xtunnel.Base.{
  ℕ, ◌≡◌, inl, inr, refl, ap, ◌∙◌, arith, Bool, false, ◌&&◌, Option, none, some, [], ◌∷◌, ◌==◌,
  Bytes, bytes_eq_refl, Bool-cases, Option-cases,
}
use xtunnel.Base.Dict.{get, text_eq, get-delete, get-put_self}
use xtunnel.HotPairTable.{HotPairEntry, lookup}
use xtunnel.Protocol.Message.{MessageType, msg_tcp_close}
use xtunnel.Protocol.ConnId.{split_hot_pair_conn_id}
use xtunnel.ServerPool.Conns.{Server, channel_alive, send_downlink, unregister_conn}
use xtunnel.ServerPool.Conns.Handlers.{
  publish, new_conn, promote_by, promote, handle_tcp_connect, forward_end,
}
use xtunnel.ServerPool.Conns.Begins.{send_downlink_frame}

unregister_conn-gone : (id : Bytes) (s : Server) → get id (unregister_conn id s).conns ≡ none
unfolding unregister_conn
unregister_conn-gone id s = elim (Option-cases (get id s.conns)) [
  | inl missing ↦ rw (missing, unregister_conn) missing
  | inr (a, found) ↦
      rw (found, unregister_conn) (ground (arith, get-delete id id s.conns, bytes_eq_refl id))
]

unregister_conn-sent : (id : Bytes) (s : Server) → (unregister_conn id s).sent ≡ s.sent
unfolding unregister_conn
unregister_conn-sent id s = ground arith

send_downlink_missing :
    (id : Bytes) (kind : MessageType) (meta payload : Bytes) (s : Server)
    → get id s.conns ≡ none
    → send_downlink id kind meta payload s ≡ (false, s)
unfolding send_downlink
send_downlink_missing id kind meta payload s missing = rw (missing, send_downlink) refl

-- When the target ends, nothing is sent to the client: the connection has been taken out of the
-- registry before the MsgTCPClose that should tell of it, whose sending then fails.
pub forward_end_silent :
    (a : ℕ) (s : Server)
    → let id = (s.heap a).conn_id in
      ((send_downlink id msg_tcp_close [] [] (unregister_conn id s)).0 ≡ false)
      × ((forward_end a s).sent ≡ s.sent)
      × (get id (forward_end a s).conns ≡ none)
unfolding forward_end
forward_end_silent a s =
    let id = (s.heap a).conn_id in
    let gone = unregister_conn-gone id s in
    let fails = send_downlink_missing id msg_tcp_close [] [] (unregister_conn id s) gone in
    (
      ap (λ (r : Bool × Server). r.0) fails,
      ap (λ (r : Bool × Server). r.1.sent) fails ∙ unregister_conn-sent id s,
      ap (λ (r : Bool × Server). get id r.1.conns) fails ∙ gone,
    )

promote-conns :
    (now : ℕ) (client : Bytes) (ch : ℕ) (id : Bytes) (a : ℕ) (s : Server)
    → (promote now client ch id a s).conns ≡ s.conns
unfolding promote promote_by
promote-conns now client ch id a s = elim (Option-cases (split_hot_pair_conn_id id)) [
  | inl plain ↦ rw (plain, promote) ((send_downlink_frame id _ _ _ s).2)
  | inr (cut, split) ↦
      rw (split, promote)
        (by_entry (lookup now client cut.0 s.hot_pairs).0
          (record s { hot_pairs = (lookup now client cut.0 s.hot_pairs).1 }))
]
  where
    by_entry :
        (o : Option HotPairEntry) (u : Server) → (promote_by o client ch id a u).conns ≡ u.conns
    by_entry none u = (send_downlink_frame id _ _ _ u).2
    by_entry (some e) u = elim (Bool-cases (e.cha == ch && channel_alive client e.chb u)) [
      | inl warm ↦ rw (promote_by, warm) refl
      | inr cold ↦ rw (promote_by, cold) ((send_downlink_frame id _ _ _ u).2)
    ]

connect_known :
    (now : ℕ) (client : Bytes) (ch : ℕ) (id : Bytes) (strategy : ℕ) (target : Bytes) (a : ℕ)
    (s : Server)
    → get id s.conns ≡ some a
    → handle_tcp_connect now client ch id (strategy ∷ target) s ≡ s
unfolding handle_tcp_connect
connect_known now client ch id strategy target a s found = rw (found, handle_tcp_connect) refl

connect_registers :
    (now : ℕ) (client : Bytes) (ch : ℕ) (id : Bytes) (strategy : ℕ) (target : Bytes) (s : Server)
    → (a : ℕ) × (get id (handle_tcp_connect now client ch id (strategy ∷ target) s).conns ≡ some a)
unfolding handle_tcp_connect
connect_registers now client ch id strategy target s = elim (Option-cases (get id s.conns)) [
  | inl missing ↦
      let made : Server = publish (new_conn client ch id target strategy false s) s in
      (
        s.next,
        rw (missing, handle_tcp_connect)
            (ap (get id) (promote-conns now client ch id s.next made)
              ∙ get-put_self id s.next s.conns),
      )
  | inr (a, found) ↦ (a, rw (found, handle_tcp_connect) found)
]

-- The first channel that asks for a connection owns it: after a request with a strategy byte,
-- another one for the same id, on whatever channel and for whatever target, changes nothing.
pub handle_tcp_connect_first :
    (now later : ℕ) (client client' : Bytes) (ch ch' : ℕ) (id : Bytes) (strategy strategy' : ℕ)
    (target target' : Bytes) (s : Server)
    → handle_tcp_connect later client' ch' id
        (strategy' ∷ target')
        (handle_tcp_connect now client ch id (strategy ∷ target) s)
      ≡ handle_tcp_connect now client ch id (strategy ∷ target) s
handle_tcp_connect_first now later client client' ch ch' id strategy strategy' target target' s =
    let known = connect_registers now client ch id strategy target s in
    connect_known later client' ch' id strategy' target' known.0
      (handle_tcp_connect now client ch id (strategy ∷ target) s) known.1

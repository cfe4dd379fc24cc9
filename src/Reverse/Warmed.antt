-- ===== src/Reverse/Warmed.antt =====
-- reverse.go and reverse_server.go: the request of the server, over a warmed pair and again after a
-- dial that failed.
use xtunnel.Base.{
  ℕ, suc, ◌<◌, ◌^◌, ◌≡◌, refl, sym, ap, ◌∙◌, subst, true, false, Option, none, some, List, [], ◌∷◌,
  ◌==◌, ==_iff, arith, length, Bytes, bytes_eq_refl, has_prefix, Option-cases, inl, inr,
}
use xtunnel.Base.Dict.{get, put, delete, text_eq, get-delete}
use xtunnel.Protocol.ConnId.{hot_pair_key_prefix, NoSep, hot_pair_conn_id, split-hot_pair_conn_id}
use xtunnel.HotPairTable.{HotPairEntry, HotPairTable}
use xtunnel.PairWarmer.Store.{Pair, Warmer}
use xtunnel.PairWarmer.Notices.{lookup_ready}
use xtunnel.Reverse.{Send, to_int32}
use xtunnel.Reverse.Client.{
  ReverseConn, Client, handle_reverse_server_msg, on_tcp_data, add_reverse_conn,
  remove_reverse_conn, warmed_pair, connect_classic, connect_warmed, handle_reverse_tcp_connect,
  dialled,
}
use xtunnel.Reverse.Client as Client
use xtunnel.Reverse.Server.{ServerReverseConn, Server, handle_reverse_message}
use xtunnel.Reverse.Server as Server
use xtunnel.Reverse.Server.Dialer.{Channels, dial_start, connect_frame, register, preset}
use xtunnel.Reverse.Negotiation.{Agree}

abbrev pub added : Bytes → Bytes → Bytes → ℕ → Client → Client
added id target resolved ch c = record {
  store = Client.write c.next (Client.new_conn target resolved ch) c.store;
  conns = put id c.next c.conns;
  next = suc c.next;
}

add_free :
    (id target resolved : Bytes) (ch : ℕ) (c : Client)
    → get id c.conns ≡ none
    → add_reverse_conn id target resolved ch c ≡ (some c.next, added id target resolved ch c)
unfolding add_reverse_conn
add_free id target resolved ch c free = rw (add_reverse_conn, free) refl

classic_free :
    (id target resolved : Bytes) (ch : ℕ) (c : Client)
    → get id c.conns ≡ none
    → (connect_classic ch id target resolved c).0 ≡ some c.next
unfolding connect_classic
classic_free id target resolved ch c free =
    rw (connect_classic, add_free id target resolved ch c free) refl

nonempty : (n : ℕ) → (suc n == 0) ≡ false
nonempty n = ground arith

request_classic :
    (resolve : Bytes → Bytes) (warmer : Option Warmer) (ch x : ℕ) (id target : Bytes) (c : Client)
    → warmed_pair ch id warmer ≡ none
    → handle_reverse_tcp_connect resolve true warmer ch id (x ∷ target) c
      ≡ connect_classic ch id target (resolve target) c
unfolding handle_reverse_tcp_connect
request_classic resolve warmer ch x id target c e =
    rw (handle_reverse_tcp_connect, nonempty (length target), e) refl

request_warmed :
    (resolve : Bytes → Bytes) (warmer : Option Warmer) (ch x : ℕ) (id target : Bytes) (c : Client)
    (p : Pair)
    → warmed_pair ch id warmer ≡ some p
    → handle_reverse_tcp_connect resolve true warmer ch id (x ∷ target) c
      ≡ connect_warmed p ch id target (resolve target) c
unfolding handle_reverse_tcp_connect
request_warmed resolve warmer ch x id target c p e =
    rw (handle_reverse_tcp_connect, nonempty (length target), e) refl

warmed_here :
    (a ch : ℕ) (key unique : Bytes) (w : Warmer)
    → NoSep key
    → has_prefix key hot_pair_key_prefix ≡ true
    → 0 < length unique
    → lookup_ready key w ≡ some a
    → (w.heap a).downlink ≡ ch
    → warmed_pair ch (hot_pair_conn_id key unique) (some w) ≡ some (w.heap a)
unfolding warmed_pair
warmed_here a ch key unique w clean prefixed some_id known down =
    rw (warmed_pair, split-hot_pair_conn_id key unique clean prefixed some_id, known)
      (ground (arith, down, ==_iff ch (w.heap a).downlink))

connect_warmed_free :
    (p : Pair) (ch : ℕ) (id target resolved : Bytes) (c : Client)
    → get id c.conns ≡ none
    → connect_warmed p ch id target resolved c ≡ (
      some c.next,
      [],
      Client.update c.next
          (record ((added id target resolved ch c).store c.next) { send_ch = to_int32 p.uplink })
          (added id target resolved ch c),
    )
unfolding connect_warmed
connect_warmed_free p ch id target resolved c free =
    ap
      (λ (r : Option ℕ × Client). elim r.0 as (λ _. Option ℕ × List Send × Client) [
        | none ↦ connect_classic ch id target resolved c
        | some a ↦
            (some a, [], Client.update a (record (r.1.store a) { send_ch = to_int32 p.uplink }) r.1)
      ])
      (add_free id target resolved ch c free)

-- A copy of the server's request that arrives after the dial failed makes the client dial again,
-- whatever pairs its warmer has and whether it has one.
pub late_request_redials :
    (resolve : Bytes → Bytes) (warmer : Option Warmer) (a ch strategy : ℕ) (id target : Bytes)
    (c : Client)
    → let failed = (dialled false a id c).1 in
      (handle_reverse_tcp_connect resolve true warmer ch id (strategy ∷ target) failed).0
      ≡ some c.next
unfolding dialled remove_reverse_conn
late_request_redials resolve warmer a ch strategy id target c =
    let failed : Client = record c { conns = delete id c.conns } in
    let free : get id failed.conns ≡ none = get-delete id id c.conns ∙ rw (bytes_eq_refl id) refl in
    elim (Option-cases (warmed_pair ch id warmer)) [
      | inl cold ↦
          ap (λ (r : Option ℕ × List Send × Client). r.0)
            (request_classic resolve warmer ch strategy id target failed cold)
          ∙ classic_free id target (resolve target) ch failed free
      | inr (p, warm) ↦
          ap (λ (r : Option ℕ × List Send × Client). r.0)
            (request_warmed resolve warmer ch strategy id target failed p warm
              ∙ connect_warmed_free p ch id target (resolve target) failed free)
    ]

same : (n : ℕ) → (n == n) ≡ true
same n = ground (arith, ==_iff n n)

-- A dial over a warmed pair that both ends know by the same key: the request goes out on the pair's
-- downlink, and its arrival there leaves each end sending on the channel that the other receives
-- on, with no frame of the client's.
pub warmed_dial-Agree :
    (resolve : Bytes → Bytes) (channels : Channels) (a : ℕ) (w : Warmer) (e : HotPairEntry)
    (client unique target : Bytes) (s : Server) (c : Client) (t : HotPairTable)
    → NoSep e.key
    → has_prefix e.key hot_pair_key_prefix ≡ true
    → 0 < length unique
    → lookup_ready e.key w ≡ some a
    → (w.heap a).uplink ≡ e.cha
    → (w.heap a).downlink ≡ e.chb
    → e.chb < 2 ^ 32
    → channels.takes e.chb ≡ true
    → get (hot_pair_conn_id e.key unique) c.conns ≡ none
    → let d = dial_start channels (some e) client unique target s t in
      let r = handle_reverse_tcp_connect resolve true (some w) e.chb d.id (0 ∷ target) c in
      (d.sends ≡ record { to = some e.chb; frame = connect_frame d.id target } ∷ [])
      × (r.0 ≡ some c.next)
      × (r.1 ≡ [])
      × Agree (r.2.store c.next) (d.server.store s.next)
unfolding dial_start
warmed_dial-Agree resolve channels a w e client unique target s c t clean prefixed some_id known up
      down small takes free =
    let id : Bytes = hot_pair_conn_id e.key unique in
    let out =
      request_warmed resolve (some w) e.chb 0 id target c (w.heap a)
        (warmed_here a e.chb e.key unique w clean prefixed some_id known down)
      ∙ connect_warmed_free (w.heap a) e.chb id target (resolve target) c free in
    rw (dial_start, takes)
      (
        refl,
        ap (λ (r : Option ℕ × List Send × Client). r.0) out,
        ap (λ (r : Option ℕ × List Send × Client). r.1) out,
        subst
            (λ (r : Option ℕ × List Send × Client). Agree (r.2.store c.next) (
              (register id (preset e (Server.new_server_reverse_conn client target)) s).store
                s.next))
            (sym out) (rw (same c.next, same s.next) (ap to_int32 up, omega (arith, small))),
      )

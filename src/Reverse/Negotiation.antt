-- ===== src/Reverse/Negotiation.antt =====
-- reverse.go and reverse_server.go: how both ends come to the same two channels.
use xtunnel.Base.{
  ℕ, ◌<◌, ◌^◌, ◌%◌, ◌≡◌, ◌⊎◌, inl, inr, refl, sym, ap, ◌∙◌, subst, Bool, true, false, not, ◌&&◌,
  ◌||◌, some, List, [], ◌∷◌, ◌++◌, ◌==◌, ==_iff, arith, length, Bytes,
}
use xtunnel.Base.Dict.{get, text_eq}
use xtunnel.Protocol.Wire.{put_u32, u32-put_u32}
use xtunnel.Protocol.Message.{Message, msg_select_uplink, msg_select_downlink}
use xtunnel.Reverse.{Send, message, named_channel, channel_meta}
use xtunnel.Reverse.Client.{ReverseConn, Client, handle_reverse_server_msg, on_select_downlink}
use xtunnel.Reverse.Server.{
  ServerReverseConn, Server, handle_reverse_message, on_select_uplink, adopt,
}
use xtunnel.Reverse.Server as Server

named-channel_meta : (ch : ℕ) → named_channel (channel_meta ch) ≡ ch % 2 ^ 32
unfolding put_u32
named-channel_meta ch = u32-put_u32 ch

length-channel_meta : (ch : ℕ) → length (channel_meta ch) ≡ 4
unfolding put_u32
length-channel_meta ch = refl

-- The frame by which a client that was asked on channel `r` starts the choice.
abbrev pub uplink_frame : Bytes → ℕ → Message
uplink_frame id r = message msg_select_uplink id (channel_meta r) []

abbrev pub downlink_frame : Bytes → ℕ → Message
downlink_frame id u = message msg_select_downlink id (channel_meta u) []

-- Each end sends where the other receives.
abbrev pub Agree : ReverseConn → ServerReverseConn → Type 0
Agree rc sc = (rc.send_ch ≡ sc.recv_ch) × (rc.recv_ch ≡ sc.send_ch)

-- The server's end waits for the client's choice: it knows no channel, or it took them from a
-- warmed pair and has not replaced them.
abbrev pub Awaits : ServerReverseConn → Type 0
Awaits sc =
    ((sc.send_ch ≡ 0) × (sc.pair_preset ≡ false))
    ⊎ (((sc.send_ch == 0) ≡ false) × (sc.pair_preset ≡ true) × (sc.repaired ≡ false))

-- The server's end takes no other choice.
abbrev pub IsFixed : ServerReverseConn → Type 0
IsFixed sc = ((sc.send_ch == 0) ≡ false) × ((sc.pair_preset && not sc.repaired) ≡ false)

on_uplink :
    (accepts : Bool) (a u r : ℕ) (id : Bytes) (s : Server)
    → get id s.conns ≡ some a
    → handle_reverse_message accepts u (uplink_frame id r) s
      ≡ on_select_uplink a u id (channel_meta r) s
unfolding handle_reverse_message
on_uplink accepts a u r id s found = rw (handle_reverse_message, found) refl

adopts :
    (a u r : ℕ) (id : Bytes) (s : Server)
    → Awaits (s.store a)
    → (repaired : Bool) × (on_select_uplink a u id (channel_meta r) s
        ≡ adopt a u id (r % 2 ^ 32) repaired s)
      × ((repaired || not (s.store a).pair_preset) ≡ true)
unfolding on_select_uplink
adopts a u r id s (inl (blank, classic)) =
    (false, rw (length-channel_meta r, blank, named-channel_meta r) refl, rw classic refl)
adopts a u r id s (inr (known, preset, fresh)) =
    (true, rw (length-channel_meta r, known, preset, fresh, named-channel_meta r) refl, refl)

on_downlink :
    (a u r : ℕ) (id : Bytes) (c : Client)
    → get id c.conns ≡ some a
    → (handle_reverse_server_msg true r (downlink_frame id u) c).client
      ≡ on_select_downlink a r (channel_meta u) c
unfolding handle_reverse_server_msg
on_downlink a u r id c found = rw (handle_reverse_server_msg, found) refl

takes_downlink :
    (a u r : ℕ) (c : Client)
    → (c.store a).recv_ch ≡ r
    → (c.store a).send_ch ≡ 0
    → ((on_select_downlink a r (channel_meta u) c).store a).send_ch ≡ u % 2 ^ 32
unfolding on_select_downlink
takes_downlink a u r c here blank =
    ground (arith, here, blank, ==_iff r r, ==_iff a a, length-channel_meta u, named-channel_meta u)

takes_downlink_recv :
    (a u r : ℕ) (c : Client)
    → (c.store a).recv_ch ≡ r
    → ((on_select_downlink a r (channel_meta u) c).store a).recv_ch ≡ r
unfolding on_select_downlink
takes_downlink_recv a u r c here =
    ground (arith, here, ==_iff r r, ==_iff a a, length-channel_meta u)

-- The copies of the frame in the order of their arrival: what the server sends, and its state.
unfoldable pub hear : Bytes → ℕ → List ℕ → Server → List Send × Server
hear id r [] s = ([], s)
hear id r (u ∷ channels) s =
    let e = handle_reverse_message true u (uplink_frame id r) s in
    let rest = hear id r channels e.server in (e.sends ++ rest.0, rest.1)

fixed_ignores :
    (a u r : ℕ) (id : Bytes) (s : Server)
    → get id s.conns ≡ some a
    → IsFixed (s.store a)
    → handle_reverse_message true u (uplink_frame id r) s ≡ Server.quiet s
fixed_ignores a u r id s found (known, shut) =
    on_uplink true a u r id s found
    ∙ (unfold on_select_uplink in rw (on_select_uplink, length-channel_meta r, known, shut) refl)

hear-fixed :
    (a r : ℕ) (id : Bytes) (channels : List ℕ) (s : Server)
    → get id s.conns ≡ some a
    → IsFixed (s.store a)
    → hear id r channels s ≡ ([], s)
unfolding hear
hear-fixed a r id [] s found fixed = refl
hear-fixed a r id (u ∷ channels) s found fixed =
    ap
      (λ (e : Server.Effect).
        (e.sends ++ (hear id r channels e.server).0, (hear id r channels e.server).1))
      (fixed_ignores a u r id s found fixed)
    ∙ hear-fixed a r id channels s found fixed

module _ (sa ca u r : ℕ) (id : Bytes) (channels : List ℕ) (s : Server) (c : Client) where
  -- The server once the first copy has come, and the client once the answer has.
  abbrev pub server_after : Server
  server_after = (hear id r (u ∷ channels) s).1

  abbrev pub client_after : Client
  client_after = (handle_reverse_server_msg true r (downlink_frame id u) c).client

  abbrev pub answer : Send
  answer = record { to = some r; frame = downlink_frame id u }

first_copy :
    (a u r : ℕ) (id : Bytes) (s : Server)
    → get id s.conns ≡ some a
    → Awaits (s.store a)
    → 0 < r
    → r < 2 ^ 32
    → u < 2 ^ 32
    → let e = handle_reverse_message true u (uplink_frame id r) s in
      (e.sends ≡ record { to = some r; frame = downlink_frame id u } ∷ [])
      × (get id e.server.conns ≡ some a)
      × IsFixed (e.server.store a)
      × ((e.server.store a).send_ch ≡ r)
      × ((e.server.store a).recv_ch ≡ u)
first_copy a u r id s found waits lo hi small =
    let (repaired, e, flag) = adopts a u r id s waits in
    let whole : handle_reverse_message true u (uplink_frame id r) s ≡ adopt a u id r repaired s =
      on_uplink true a u r id s found
      ∙ e
      ∙ ap (λ x. adopt a u id x repaired s) (omega (arith, hi)) in
    subst
      (λ (x : Server.Effect).
        (x.sends ≡ record { to = some r; frame = downlink_frame id u } ∷ [])
        × (get id x.server.conns ≡ some a)
        × IsFixed (x.server.store a)
        × ((x.server.store a).send_ch ≡ r)
        × ((x.server.store a).recv_ch ≡ u))
      (sym whole)
      (
        refl,
        found,
        ground (arith, ==_iff a a, ==_iff r 0, flag),
        ground (arith, ==_iff a a),
        ground (arith, ==_iff a a),
      )

hear-first :
    (a u r : ℕ) (id : Bytes) (channels : List ℕ) (s : Server)
    → get id s.conns ≡ some a
    → Awaits (s.store a)
    → 0 < r
    → r < 2 ^ 32
    → u < 2 ^ 32
    → let e = handle_reverse_message true u (uplink_frame id r) s in
      hear id r (u ∷ channels) s
      ≡ (record { to = some r; frame = downlink_frame id u } ∷ [], e.server)
unfolding hear
hear-first a u r id channels s found waits lo hi small =
    let e : Server.Effect = handle_reverse_message true u (uplink_frame id r) s in
    let f = first_copy a u r id s found waits lo hi small in
    ap (λ (rest : List Send × Server). (e.sends ++ rest.0, rest.1))
      (hear-fixed a r id channels e.server f.1 f.2)
    ∙ ap (λ sends. (sends ++ [], e.server)) f.0

-- Where the server's end awaits a choice and the client's end, asked on channel `r`, has chosen none,
-- the copies of the client's frame, whatever channels they come on, make the server answer once, on
-- `r`; with that answer each end sends on the channel that the other receives on, and no later copy
-- changes the server's.
pub negotiate-Agree :
    (sa ca u r : ℕ) (id : Bytes) (channels : List ℕ) (s : Server) (c : Client)
    → get id s.conns ≡ some sa
    → get id c.conns ≡ some ca
    → Awaits (s.store sa)
    → (c.store ca).recv_ch ≡ r
    → (c.store ca).send_ch ≡ 0
    → 0 < r
    → r < 2 ^ 32
    → u < 2 ^ 32
    → ((hear id r (u ∷ channels) s).0 ≡ answer sa ca u r id channels s c ∷ [])
      × Agree
          ((client_after sa ca u r id channels s c).store ca)
          ((server_after sa ca u r id channels s c).store sa)
      × IsFixed ((server_after sa ca u r id channels s c).store sa)
negotiate-Agree sa ca u r id channels s c fs fc waits here blank lo hi small =
    let e : Server.Effect = handle_reverse_message true u (uplink_frame id r) s in
    let f = first_copy sa u r id s fs waits lo hi small in
    let heard = hear-first sa u r id channels s fs waits lo hi small in
    let told : client_after sa ca u r id channels s c ≡ on_select_downlink ca r (channel_meta u) c =
      on_downlink ca u r id c fc in
    let server : server_after sa ca u r id channels s c ≡ e.server =
      ap (λ (x : List Send × Server). x.1) heard in
    (
      ap (λ (x : List Send × Server). x.0) heard,
      (
        ap (λ (x : Client). (x.store ca).send_ch) told
            ∙ takes_downlink ca u r c here blank
            ∙ omega (arith, small)
            ∙ sym f.4
            ∙ ap (λ (x : Server). (x.store sa).recv_ch) (sym server),
        ap (λ (x : Client). (x.store ca).recv_ch) told
            ∙ takes_downlink_recv ca u r c here
            ∙ sym f.3
            ∙ ap (λ (x : Server). (x.store sa).send_ch) (sym server),
      ),
      subst (λ (x : Server). IsFixed (x.store sa)) (sym server) f.2,
    )

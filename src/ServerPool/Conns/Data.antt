-- ===== src/ServerPool/Conns/Data.antt =====
-- handler.go: which channel becomes the downlink, and the order in which the target gets the data.
use xtunnel.Base.{
  ℕ, ◌≡◌, ◌⊎◌, inl, inr, refl, ap, ◌∙◌, arith, true, false, not, ◌&&◌, Option, none, some, List, [],
  ◌∷◌, ◌++◌, ◌==◌, ==_iff, ltb, if◌then◌else◌, Bytes, Bool-cases, Option-cases,
}
use xtunnel.Base.Dict.{get, text_eq}
use xtunnel.ServerPool.Conns.{
  Conn, Channel, Server, opened, is_open, is_absent, at_address, set_conn,
}
use xtunnel.ServerPool.Conns.Handlers.{
  choose_downlink, chosen_downlink, may_choose, handle_select_downlink, attach_target, write_target,
  deliver, handle_tcp_data,
}

at_address_here : (a : ℕ) (c : Conn) (h : ℕ → Conn) → at_address a c h a ≡ c
at_address_here a c h = ground (arith, ==_iff a a)

select_gone :
    (client : Bytes) (ch : ℕ) (id meta : Bytes) (a : ℕ) (s : Server)
    → get id s.conns ≡ some a
    → s.channels client (chosen_downlink ch meta) ≡ none
    → handle_select_downlink client ch id meta s ≡ s
unfolding handle_select_downlink
select_gone client ch id meta a s found gone = rw (handle_select_downlink, found, gone) refl

select_there :
    (client : Bytes) (ch : ℕ) (id meta : Bytes) (a : ℕ) (w : Channel) (s : Server)
    → get id s.conns ≡ some a
    → s.channels client (chosen_downlink ch meta) ≡ some w
    → handle_select_downlink client ch id meta s ≡ (
        if not w.closed && may_choose ch (s.heap a) w
        then set_conn a (choose_downlink (chosen_downlink ch meta) (s.heap a)) s
        else s)
unfolding handle_select_downlink
select_there client ch id meta a w s found there = rw (handle_select_downlink, found, there) refl

-- A client's choice of a downlink either leaves the connection as it was, or gives a connection that
-- had none the channel that was asked for, where the channel is open, is the owner's, and the
-- request came over the connection's uplink.
pub handle_select_downlink_sound :
    (client : Bytes) (ch : ℕ) (id meta : Bytes) (a : ℕ) (s : Server)
    → get id s.conns ≡ some a
    → let d = chosen_downlink ch meta in
      ((handle_select_downlink client ch id meta s).heap a ≡ s.heap a)
      ⊎ ((w : Channel) × (s.channels client d ≡ some w)
          × (w.closed ≡ false)
          × (may_choose ch (s.heap a) w ≡ true)
          × ((s.heap a).downlink ≡ 0)
          × ((handle_select_downlink client ch id meta s).heap a
              ≡ record (s.heap a) { downlink = d }))
unfolding handle_select_downlink
handle_select_downlink_sound client ch id meta a s found =
    let d : ℕ = chosen_downlink ch meta in
    elim (Option-cases (s.channels client d)) [
      | inl gone ↦
          inl (ap (λ (u : Server). u.heap a) (select_gone client ch id meta a s found gone))
      | inr (w, there) ↦
          let result = select_there client ch id meta a w s found there in
          elim (Bool-cases (not w.closed && may_choose ch (s.heap a) w)) [
            | inr refused ↦ inl (ap (λ (u : Server). u.heap a) result ∙ rw refused refl)
            | inl allowed ↦
                let chosen : (handle_select_downlink client ch id meta s).heap a
                    ≡ choose_downlink d (s.heap a) =
                  ap (λ (u : Server). u.heap a) result
                  ∙ rw allowed (at_address_here a (choose_downlink d (s.heap a)) s.heap) in
                elim (Bool-cases ((s.heap a).downlink == 0)) [
                  | inr taken ↦ inl (chosen ∙ simp (taken) refl)
                  | inl unset ↦ inr (
                    w,
                    there,
                    ground arith,
                    ground arith,
                    ground (arith, ==_iff (s.heap a).downlink 0),
                    chosen ∙ simp (unset) refl,
                  )
                ]
          ]
    ]

attach_live :
    (a : ℕ) (s : Server)
    → (s.heap a).closed ≡ false
    → attach_target a s ≡ (
      some (s.heap a).pending,
      set_conn a (record (s.heap a) { socket = opened; connected = true; pending = [] }) s,
    )
unfolding attach_target
attach_live a s live = simp (attach_target, live) refl

deliver_open :
    (a : ℕ) (id bytes : Bytes) (s : Server)
    → (is_open (s.heap a).socket && true) ≡ true
    → deliver true a id bytes s
      ≡ set_conn a (record (s.heap a) { written = (s.heap a).written ++ (bytes ∷ []) }) s
unfolding deliver write_target
deliver_open a id bytes s takes = rw (deliver, write_target, takes) refl

data_open :
    (a ch : ℕ) (id bytes : Bytes) (s : Server)
    → get id s.conns ≡ some a
    → (ltb 0 (s.heap a).uplink && not (ch == (s.heap a).uplink)) ≡ false
    → is_absent (s.heap a).socket ≡ false
    → handle_tcp_data true ch id bytes s ≡ deliver true a id bytes s
unfolding handle_tcp_data
data_open a ch id bytes s found up there = rw (handle_tcp_data, found, up, there) refl

two_behind : (ws : List Bytes) (x y : Bytes) → (ws ++ (x ∷ [])) ++ (y ∷ []) ≡ ws ++ (x ∷ y ∷ [])
two_behind [] x y = refl
two_behind (w ∷ ws) x y = ap (◌∷◌ w) (two_behind ws x y)

own_uplink : (u ch : ℕ) → u ≡ ch → (ltb 0 u && not (ch == u)) ≡ false
own_uplink u ch e = ground (arith, ==_iff ch u)

written_in_turn :
    (a ch : ℕ) (id late early : Bytes) (u : Server)
    → get id u.conns ≡ some a
    → (u.heap a).uplink ≡ ch
    → (u.heap a).socket ≡ opened
    → ((deliver true a id early (handle_tcp_data true ch id late u)).heap a).written
      ≡ (u.heap a).written ++ (late ∷ early ∷ [])
written_in_turn a ch id late early u found up is_up =
    let ws : List Bytes = (u.heap a).written in
    let c : Conn = record (u.heap a) { written = ws ++ (late ∷ []) } in
    let v : Server = set_conn a c u in
    let here : v.heap a ≡ c = at_address_here a c u.heap in
    let first : handle_tcp_data true ch id late u ≡ v =
      data_open a ch id late u found (own_uplink (u.heap a).uplink ch up) (ap is_absent is_up)
      ∙ deliver_open a id late u (ap (λ x. is_open x && true) is_up) in
    let second : deliver true a id early v
        ≡ set_conn a (record (v.heap a) { written = (v.heap a).written ++ (early ∷ []) }) v =
      deliver_open a id early v
        (ap (λ (d : Conn). is_open d.socket && true) here ∙ ap (λ x. is_open x && true) is_up) in
    ap (λ (x : Server). ((deliver true a id early x).heap a).written) first
    ∙ ap (λ (x : Server). (x.heap a).written) second
    ∙ ap (λ (d : Conn). d.written)
        (at_address_here a (record (v.heap a) { written = (v.heap a).written ++ (early ∷ []) })
          v.heap)
    ∙ ap (λ (d : Conn). d.written ++ (early ∷ [])) here
    ∙ two_behind ws late early

-- Where an open connection has one message buffered and its dial ends, a message that comes over
-- its uplink before the buffered one is written overtakes it: if the target takes both, it gets the
-- later message first.
pub late_data_overtake :
    (a ch : ℕ) (id early late : Bytes) (s : Server)
    → get id s.conns ≡ some a
    → (s.heap a).closed ≡ false
    → (s.heap a).uplink ≡ ch
    → (s.heap a).pending ≡ early ∷ []
    → let attached = attach_target a s in
      let after = handle_tcp_data true ch id late attached.1 in
      (attached.0 ≡ some (early ∷ []))
      × (((deliver true a id early after).heap a).written
          ≡ (s.heap a).written ++ (late ∷ early ∷ []))
late_data_overtake a ch id early late s found live up pending =
    let c : Conn = record (s.heap a) { socket = opened; connected = true; pending = [] } in
    let u : Server = set_conn a c s in
    let here : u.heap a ≡ c = at_address_here a c s.heap in
    let attached : attach_target a s ≡ (some (s.heap a).pending, u) = attach_live a s live in
    (
      ap (λ (r : Option (List Bytes) × Server). r.0) attached ∙ ap some pending,
      ap
            (λ (r : Option (List Bytes) × Server).
              ((deliver true a id early (handle_tcp_data true ch id late r.1)).heap a).written)
            attached
          ∙ written_in_turn a ch id late early u found (ap (λ (d : Conn). d.uplink) here ∙ up)
              (ap (λ (d : Conn). d.socket) here)
          ∙ ap (λ (d : Conn). d.written ++ (late ∷ early ∷ [])) here,
    )

-- ===== src/ClientPool/Dispatch/Delivery.antt =====
-- pool.go: over which channel the data of a connection reach it.
use xtunnel.Base.{
  ℕ, ◌<◌, ◌≡◌, refl, sym, ap, ◌∙◌, Bool, true, false, Option, none, some, List, [], ◌∷◌, ◌++◌, ltb,
  ◌==◌, ==_iff, if◌then◌else◌, length, All, All-append, Bytes, get_or, arith, ◌⊎◌, inl, inr,
  Bool-cases,
}
use xtunnel.Protocol.Wire.{put_u32}
use xtunnel.Protocol.Message.{encode_message, msg_tcp_close, msg_select_downlink}
use xtunnel.ClientPool.Registry.{
  ConnState, PairRef, Effect, wrote, closed_tcp_conn, delivered, delivered_udp, prebound, Outcome,
  note_uplink, note_last_channel, get_downlink, signal_connected, unregister, close_tcp, close_udp,
  release, is_prebind,
}
use xtunnel.ClientPool.Registry.Selection.{Selection, select_downlink, select_entry}
use xtunnel.ClientPool.Registry.Downlink.{select_entry-IsAnswer}
use xtunnel.ClientPool.Dispatch.{
  with_effects, selected_by, on_conn_status, deliver_tcp, deliver_udp, downlink_of, on_tcp_close,
  on_udp_close, takes_tcp, takes_udp, is_prebind_id, status_ok,
}

-- Data reach the connection over the channel only.
abbrev pub IsVia : ℕ → Effect → Type 0
IsVia ch_id (delivered over payload) = (over ≡ ch_id) × (0 < over)
IsVia ch_id (delivered_udp over meta payload) = (over ≡ ch_id) × (0 < over)
IsVia ch_id _ = Unit {0}

-- The entry, if it is there, has the downlink.
abbrev pub HasDownlink : ℕ → Option ConnState → Type 0
HasDownlink ch_id none = Unit {0}
HasDownlink ch_id (some st) = st.downlink ≡ ch_id

abbrev pub Fits : ℕ → Outcome → Type 0
Fits ch_id r = HasDownlink ch_id r.0 × All (IsVia ch_id) r.1

-- What is handled from a downlink, or none, keeps it or gives one.
abbrev pub Goes : ℕ → Outcome → Type 0
Goes ch_id r = (y : ℕ) × ((ch_id ≡ 0) ⊎ (y ≡ ch_id)) × Fits y r

pub stays : (d : ℕ) (r : Outcome) → Fits d r → Goes d r
stays d r h = (d, inr refl, h)

close_tcp-IsVia : (d : ℕ) (st : ConnState) → All (IsVia d) (close_tcp st)
close_tcp-IsVia d st = elim (Bool-cases st.has_tcp_conn) [ inl h ↦ rw h (tt, tt) | inr h ↦ rw h tt ]

close_udp-IsVia : (d : ℕ) (st : ConnState) → All (IsVia d) (close_udp st)
close_udp-IsVia d st = elim (Bool-cases st.has_udp_sink) [ inl h ↦ rw h (tt, tt) | inr h ↦ rw h tt ]

release-IsVia : (d : ℕ) (o : Option PairRef) → All (IsVia d) (release o)
release-IsVia d none = tt
release-IsVia d (some pair) = (tt, tt)

pub unregister-Fits : (d : ℕ) (o : Option ConnState) → HasDownlink d o → Fits d (unregister o)
unfolding unregister
unregister-Fits d none h = (tt, tt)
unregister-Fits d (some st) h = elim (Bool-cases st.is_closed) [
  | inl marked ↦ rw marked (h, tt)
  | inr live ↦ elim (Bool-cases (is_prebind st.target)) [
    | inl prebinds ↦ rw (live, prebinds) (tt, tt)
    | inr plain ↦
        rw (live, plain)
          (
            tt,
            All-append (IsVia d) (close_tcp st) (close_udp st ++ release st.pair)
                (close_tcp-IsVia d st)
                (All-append (IsVia d) (close_udp st) (release st.pair) (close_udp-IsVia d st)
                  (release-IsVia d st.pair)),
          )
  ]
]

pub with_effects-Fits :
    (d : ℕ) (effects : List Effect) (r : Outcome)
    → All (IsVia d) effects
    → Fits d r
    → Fits d (with_effects effects r)
with_effects-Fits d effects (o, more) quiet h = (h.0, All-append (IsVia d) effects more quiet h.1)

pub note_uplink-HasDownlink :
    (d up : ℕ) (o : Option ConnState) → HasDownlink d o → HasDownlink d (note_uplink up o)
unfolding note_uplink
note_uplink-HasDownlink d up none h = tt
note_uplink-HasDownlink d up (some st) h = h

pub note_last_channel-HasDownlink :
    (d ch_id : ℕ) (o : Option ConnState)
    → HasDownlink d o
    → HasDownlink d (note_last_channel ch_id o)
unfolding note_last_channel
note_last_channel-HasDownlink d ch_id none h = tt
note_last_channel-HasDownlink d ch_id (some st) h = h

pub signal_connected-HasDownlink :
    (d : ℕ) (o : Option ConnState) → HasDownlink d o → HasDownlink d (signal_connected o)
unfolding signal_connected
signal_connected-HasDownlink d none h = tt
signal_connected-HasDownlink d (some st) h = h

-- The downlink behind a choice: the one that was there, or the one that is chosen.
abbrev pub Chose : ℕ → Selection × Option ConnState → Type 0
Chose d r =
    (y : ℕ) × ((d ≡ 0) ⊎ (y ≡ d)) × HasDownlink y r.1 × ((r.0.chosen ≡ 0) ⊎ (r.0.chosen ≡ y))

pub select_downlink-Chose :
    (d ch_id : ℕ) (o : Option ConnState)
    → 0 < ch_id
    → HasDownlink d o
    → Chose d (select_downlink ch_id o)
unfolding select_downlink
select_downlink-Chose d ch_id none valid h = (d, inr refl, tt, inl refl)
select_downlink-Chose d ch_id (some st) valid h = elim (select_entry-IsAnswer ch_id st valid) [
  | inl (same, lost, told) ↦ (d, inr refl, ap (λ c. c.downlink) same ∙ h, ground (arith, h))
  | inr (free, more, won, told) ↦
      ((select_entry ch_id st).1.downlink, inl (sym h ∙ free), refl, inr told)
]

pub downlink_of-Chose :
    (d ch_id : ℕ) (o : Option ConnState)
    → 0 < ch_id
    → HasDownlink d o
    → Chose d (downlink_of ch_id o (get_downlink o))
unfolding get_downlink
downlink_of-Chose d ch_id none valid h = select_downlink-Chose d ch_id none valid h
downlink_of-Chose d ch_id (some st) valid h = elim (Bool-cases (ltb 0 st.downlink)) [
  | inl chosen ↦ rw chosen (d, inr refl, h, inr h)
  | inr free ↦ rw free (select_downlink-Chose d ch_id (some st) valid h)
]

-- A choice behind which `f` goes on, with the chosen channel's data only.
pub chosen-Goes :
    (d : ℕ) (s : Selection × Option ConnState) (f : Selection × Option ConnState → Outcome)
    → Chose d s
    → ((y : ℕ) → HasDownlink y s.1 → (s.0.chosen ≡ 0) ⊎ (s.0.chosen ≡ y) → Fits y (f s))
    → Goes d (f s)
chosen-Goes d s f (y, kept, has, told) fits = (y, kept, fits y has told)

pub deliver_tcp-Fits :
    (write_ok : Bool) (ch_id : ℕ) (conn_id payload : Bytes) (y : ℕ) (s : Selection)
    (o : Option ConnState)
    → 0 < ch_id
    → HasDownlink y o
    → (s.chosen ≡ 0) ⊎ (s.chosen ≡ y)
    → Fits y (deliver_tcp write_ok ch_id conn_id payload (s, o))
deliver_tcp-Fits write_ok ch_id conn_id payload y s o valid has told =
    elim (Bool-cases (s.chosen == ch_id)) [
      | inr other ↦ rw other (has, tt)
      | inl same ↦ elim (Bool-cases (takes_tcp o)) [
        | inr gone ↦
            rw (same, gone)
              (with_effects-Fits y (wrote ch_id (encode_message msg_tcp_close conn_id [] []) ∷ [])
                (unregister o) (tt, tt) (unregister-Fits y o has))
        | inl there ↦ elim (Bool-cases write_ok) [
          | inl taken ↦ rw (same, there, taken) (has, (ground (arith, ==_iff s.chosen ch_id), tt))
          | inr refused ↦
              rw (same, there, refused)
                (with_effects-Fits y
                  (wrote ch_id (encode_message msg_tcp_close conn_id [] []) ∷ closed_tcp_conn ∷ [])
                  (unregister o) (tt, (tt, tt)) (unregister-Fits y o has))
        ]
      ]
    ]

if-All :
    (P : Effect → Type 0) (test : Bool) (e : Effect)
    → (test ≡ true → P e)
    → All P (if test then e ∷ [] else [])
if-All P true e h = (h refl, tt)
if-All P false e h = tt

pub deliver_udp-Fits :
    (ch_id : ℕ) (conn_id meta payload : Bytes) (y : ℕ) (s : Selection) (o : Option ConnState)
    → 0 < ch_id
    → HasDownlink y o
    → (s.chosen ≡ 0) ⊎ (s.chosen ≡ y)
    → Fits y (deliver_udp ch_id conn_id meta payload (s, o))
deliver_udp-Fits ch_id conn_id meta payload y s o valid has told =
    elim (Bool-cases (s.chosen == ch_id)) [
      | inr other ↦ rw other (has, tt)
      | inl same ↦
          let answer =
            wrote ch_id (encode_message msg_select_downlink conn_id (put_u32 ch_id) []) in
          rw same (
            has,
            All-append (IsVia y) (if s.selected then answer ∷ [] else [])
                (if takes_udp o then delivered_udp ch_id meta payload ∷ [] else [])
                (if-All (IsVia y) s.selected answer (λ h. tt))
                (if-All (IsVia y) (takes_udp o) (delivered_udp ch_id meta payload)
                  (λ h. ground (arith, ==_iff s.chosen ch_id))),
          )
    ]

pub selected_by-Fits :
    (conn_id : Bytes) (up y : ℕ) (s : Selection) (o : Option ConnState)
    → HasDownlink y o
    → Fits y (selected_by conn_id up (s, o))
selected_by-Fits conn_id up y s o has = elim (Bool-cases s.selected) [
  | inl won ↦
      rw won (has, (tt, if-All (IsVia y) (is_prebind_id conn_id) (prebound up s.chosen) (λ h. tt)))
  | inr lost ↦ rw lost (has, tt)
]

pub if-Fits :
    (d : ℕ) (test : Bool) (r s : Outcome) → Fits d r → Fits d s → Fits d (if test then r else s)
if-Fits d true r s hr hs = hr
if-Fits d false r s hr hs = hs

pub on_conn_status-Fits :
    (d : ℕ) (meta : Bytes) (o : Option ConnState) → HasDownlink d o → Fits d (on_conn_status meta o)
unfolding on_conn_status
on_conn_status-Fits d meta o h =
    if-Fits d (ltb (length meta) 1) (o, [])
      (if get_or meta 0 0 == status_ok then (signal_connected o, []) else unregister o) (h, tt)
      (if-Fits d (get_or meta 0 0 == status_ok) (signal_connected o, []) (unregister o)
        (signal_connected-HasDownlink d o h, tt) (unregister-Fits d o h))

pub on_tcp_close-Fits :
    (d ch_id : ℕ) (o : Option ConnState) → HasDownlink d o → Fits d (on_tcp_close ch_id o)
unfolding on_tcp_close
on_tcp_close-Fits d ch_id o h =
    let noted = note_uplink ch_id o in
    let has = note_uplink-HasDownlink d ch_id o h in
    with_effects-Fits d (if takes_tcp noted then closed_tcp_conn ∷ [] else []) (unregister noted)
      (if-All (IsVia d) (takes_tcp noted) closed_tcp_conn (λ t. tt)) (unregister-Fits d noted has)

pub on_udp_close-Fits :
    (d ch_id : ℕ) (o : Option ConnState) → HasDownlink d o → Fits d (on_udp_close ch_id o)
unfolding on_udp_close
on_udp_close-Fits d ch_id o h =
    let noted = note_uplink ch_id o in
    let has = note_uplink-HasDownlink d ch_id o h in
    elim (Bool-cases (takes_udp noted)) [
      | inl there ↦ rw there (has, (tt, tt))
      | inr gone ↦ rw gone (unregister-Fits d noted has)
    ]

-- ===== src/ClientPool/Registry/Release.antt =====
-- pool.go: a hot pair's way through a connection that is dialled over it.
use xtunnel.Base.{
  ℕ, ◌+◌, ◌≡◌, refl, ap, ◌∙◌, Bool, true, false, Option, none, some, List, [], ◌∷◌, ◌++◌,
  if◌then◌else◌, ◌==◌, Bytes, arith, Bool-cases, inl, inr,
}
use xtunnel.Protocol.Message.{encode_message, msg_tcp_connect}
use xtunnel.ClientPool.Registry.{
  ConnState, PairRef, Effect, released, Outcome, register_and_broadcast_tcp_with_pair, register_tcp,
  request_over, broadcast_request, unregister, close_tcp, close_udp, release, is_prebind,
  connect_meta,
}

abbrev is_release : Effect → Bool
is_release (released pair) = true
is_release _ = false

unfoldable pub releases : List Effect → ℕ
releases [] = 0
releases (e ∷ effects) = (if is_release e then 1 else 0) + releases effects

abbrev pub held : Option PairRef → ℕ
held none = 0
held (some pair) = 1

releases-append : (a b : List Effect) → releases (a ++ b) ≡ releases a + releases b
unfolding releases
releases-append [] b = omega arith
releases-append (e ∷ a) b = omega (arith, releases-append a b)

releases-release : (o : Option PairRef) → releases (release o) ≡ held o
unfolding releases
releases-release none = refl
releases-release (some pair) = refl

releases-close_tcp : (st : ConnState) → releases (close_tcp st) ≡ 0
unfolding releases
releases-close_tcp st = elim (Bool-cases st.has_tcp_conn) [ inl h ↦ rw h refl | inr h ↦ rw h refl ]

releases-close_udp : (st : ConnState) → releases (close_udp st) ≡ 0
unfolding releases
releases-close_udp st = elim (Bool-cases st.has_udp_sink) [ inl h ↦ rw h refl | inr h ↦ rw h refl ]

-- The pairs released by an operation and by the end of the connection behind it.
abbrev pub all_releases : Outcome → ℕ
all_releases (o, effects) = releases effects + releases (unregister o).1

unregister-releases :
    (st : ConnState)
    → st.is_closed ≡ false
    → is_prebind st.target ≡ false
    → ((unregister (some st)).0 ≡ none) × (releases (unregister (some st)).1 ≡ held st.pair)
unfolding unregister
unregister-releases st live plain =
    rw (live, plain)
      (
        refl,
        omega (
          arith,
          releases-append (close_tcp st) (close_udp st ++ release st.pair),
          releases-append (close_udp st) (release st.pair),
          releases-close_tcp st,
          releases-close_udp st,
          releases-release st.pair,
        ),
      )

releases-unregister-none : releases (unregister none).1 ≡ 0
unfolding unregister releases
releases-unregister-none = refl

broadcast_request-releases :
    (msg : Bytes) (sent : ℕ) (st : ConnState)
    → st.is_closed ≡ false
    → is_prebind st.target ≡ false
    → all_releases (broadcast_request msg sent st) ≡ held st.pair
unfolding releases
broadcast_request-releases msg sent st live plain =
    let gone = unregister-releases st live plain in
    elim (Bool-cases (sent == 0)) [
      | inl lost ↦ rw (lost, gone.0) (omega (arith, gone.1, releases-unregister-none))
      | inr taken ↦ rw taken (omega (arith, gone.1))
    ]

request_over-releases :
    (msg : Bytes) (direct_ok : Bool) (sent : ℕ) (st : ConnState) (pair : Option PairRef)
    → st.is_closed ≡ false
    → is_prebind st.target ≡ false
    → st.pair ≡ none
    → all_releases (request_over msg direct_ok sent st pair) ≡ held pair
unfolding releases
request_over-releases msg direct_ok sent st none live plain alone =
    broadcast_request-releases msg sent st live plain ∙ ap held alone
request_over-releases msg direct_ok sent st (some pair) live plain alone =
    elim (Bool-cases direct_ok) [
      | inl ok ↦ rw ok (
          omega (
            arith,
            unregister-releases (record st { pair = some pair; uplink = pair.uplink_ch_id }) live
                plain,
          ))
      | inr failed ↦ rw failed (
          omega (
            arith,
            broadcast_request-releases msg sent (record st { pair = none; uplink = 0 }) live plain,
          ))
    ]

-- A hot pair that is taken for a new connection is released exactly once, whether the unicast over it
-- succeeds, fails and is followed by a broadcast, or the broadcast fails as well; and where there is
-- no pair nothing is released. The target is not the one of prebinding.
pub register_and_broadcast_tcp_with_pair-releases :
    (ip_strategy : ℕ) (conn_id target first : Bytes) (has_tcp_conn : Bool) (addr : Option Bytes)
    (now : ℕ) (req_type : Bytes) (pair : Option PairRef) (direct_ok : Bool) (sent : ℕ)
    → is_prebind target ≡ false
    → all_releases (
        register_and_broadcast_tcp_with_pair ip_strategy conn_id target first has_tcp_conn addr now
          req_type pair direct_ok sent none)
      ≡ held pair
unfolding register_and_broadcast_tcp_with_pair
register_and_broadcast_tcp_with_pair-releases ip_strategy conn_id target first has_tcp_conn addr now
      req_type pair direct_ok sent plain =
    request_over-releases
      (encode_message msg_tcp_connect conn_id (connect_meta ip_strategy target) first) direct_ok
      sent (register_tcp target has_tcp_conn addr now req_type none) pair refl plain refl

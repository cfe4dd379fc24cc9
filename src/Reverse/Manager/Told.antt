-- ===== src/Reverse/Manager/Told.antt =====
-- reverse.go and reverse_listener.go: what the client is told of its listeners.
use xtunnel.Base.{
  ℕ, suc, ◌≡◌, refl, sym, ap, ◌∙◌, Bool, true, false, Option, none, some, [], ◌∷◌, ◌==◌, leb, arith,
  length, Bytes, Bool-cases, Option-cases, inl, inr,
}
use xtunnel.Base.Dict.{get, put, text_eq, get-put_self}
use xtunnel.PairWarmer.Notices.{is_some}
use xtunnel.Protocol.Message.{Message, msg_reverse_listen_result}
use xtunnel.Reverse.{message}
use xtunnel.Reverse.Listeners.{ReverseListenerState, Listeners, handle_reverse_listen_result}
use xtunnel.Reverse.Manager.{
  Spec, ReverseListener, ClientMap, Manager, Answer, fine, refused, map_of, with_map, meta_of,
  listener_of, parse_listener_spec, open_listener, answer_listen, handle_reverse_listen,
}

abbrev pub is_fine : Answer → Bool
is_fine fine = true
is_fine (refused reason) = false

abbrev pub has_listener : Bytes → Bytes → Manager → Bool
has_listener client spec m = is_some (get spec (map_of client m))

map_of-with_map :
    (client : Bytes) (listeners : ClientMap) (m : Manager)
    → map_of client (with_map client listeners m) ≡ listeners
map_of-with_map client listeners m = rw (map_of, get-put_self client listeners m.clients) refl

known_lem :
    (client spec : Bytes) (m : Manager) (o : Option ReverseListener)
    → get spec (map_of client m) ≡ o
    → has_listener client spec (with_map client (map_of client m) m) ≡ is_some o
known_lem client spec m o e =
    ap (λ listeners. is_some (get spec listeners)) (map_of-with_map client (map_of client m) m)
    ∙ ap is_some e

open_listener_lem :
    (starts : Spec → Option Bytes) (client listener_id spec : Bytes) (listeners : ClientMap)
    (m : Manager)
    → has_listener client spec m ≡ false
    → let r = open_listener starts client listener_id spec listeners m in
      is_fine r.0 ≡ has_listener client spec r.1
unfolding open_listener
open_listener_lem starts client listener_id spec listeners m none_yet =
    elim (Option-cases (parse_listener_spec spec)) [
      | inl bad ↦ rw (open_listener, bad) (sym none_yet)
      | inr (s, parsed) ↦ elim (Option-cases (starts s)) [
        | inr (error, failed) ↦ rw (open_listener, parsed, failed) (sym none_yet)
        | inl started ↦
            let l : ReverseListener = listener_of spec listener_id s in
            rw (open_listener, parsed, started)
              (sym (
                ap (λ ls. is_some (get spec ls)) (map_of-with_map client (put spec l listeners) m)
                ∙ ap is_some (get-put_self spec l listeners)))
      ]
    ]

pub answer_listen_lem :
    (starts : Spec → Option Bytes) (client listener_id spec : Bytes) (m : Manager)
    → m.attached ≡ true
    → let r = answer_listen starts client listener_id spec m in
      is_fine r.0 ≡ has_listener client spec r.1
unfolding answer_listen
answer_listen_lem starts client listener_id spec m attached =
    let listeners : ClientMap = map_of client m in
    let known : Manager = with_map client listeners m in
    elim (Option-cases (get spec listeners)) [
      | inr (l, found) ↦
          rw (answer_listen, attached, found) (sym (known_lem client spec m (some l) found))
      | inl free ↦ elim (Bool-cases (leb m.max_per_client (length listeners))) [
        | inl full ↦
            rw (answer_listen, attached, free, full) (sym (known_lem client spec m none free))
        | inr room ↦
            rw (answer_listen, attached, free, room)
              (open_listener_lem starts client listener_id spec listeners known
                (known_lem client spec m none free))
      ]
    ]

nonempty : (n : ℕ) → (suc n == 0) ≡ false
nonempty n = ground arith

reads_answer :
    (id : Bytes) (a : Answer) (l : Listeners) (st : ReverseListenerState)
    → get id l.states ≡ some st
    → (after : ReverseListenerState) × (get id
          (handle_reverse_listen_result id (meta_of a) l).states
        ≡ some after)
      × (after.ok ≡ is_fine a)
unfolding handle_reverse_listen_result
reads_answer id fine l st found = (
  record st { ok = true; reason = []; responded = true },
  rw (handle_reverse_listen_result, found)
      (get-put_self id (record st { ok = true; reason = []; responded = true }) l.states),
  refl,
)
reads_answer id (refused reason) l st found = (
  record st { ok = false; reason = reason; responded = true },
  rw (handle_reverse_listen_result, nonempty (length reason), found)
      (get-put_self id (record st { ok = false; reason = reason; responded = true }) l.states),
  refl,
)

-- Once the manager has its pool, a request gets one answer, on the channel that it came on, and the
-- client that takes it for a listener that it knows records the listener as registered exactly if
-- the server then has a listener for the specification.
pub handle_reverse_listen_told :
    (starts : Spec → Option Bytes) (client : Bytes) (ch : ℕ) (listener_id spec : Bytes)
    (m : Manager) (l : Listeners) (st : ReverseListenerState)
    → m.attached ≡ true
    → get listener_id l.states ≡ some st
    → let r = handle_reverse_listen starts client ch listener_id spec m in
      (answer : Message) × (after : ReverseListenerState) × (r.0
        ≡ record { to = some ch; frame = answer } ∷ [])
      × (get listener_id (handle_reverse_listen_result answer.conn_id answer.meta l).states
          ≡ some after)
      × (after.ok ≡ has_listener client spec r.1)
unfolding handle_reverse_listen
handle_reverse_listen_told starts client ch listener_id spec m l st attached found =
    let r : Answer × Manager = answer_listen starts client listener_id spec m in
    let read = reads_answer listener_id r.0 l st found in
    (
      message msg_reverse_listen_result listener_id (meta_of r.0) [],
      read.0,
      rw attached refl,
      read.1,
      read.2 ∙ answer_listen_lem starts client listener_id spec m attached,
    )

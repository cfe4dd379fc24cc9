-- ===== src/Reverse/Manager/Bounded.antt =====
-- reverse_listener.go: how many listeners a client may have.
use xtunnel.Base.{
  ℕ, suc, ◌≤◌, ◌≡◌, refl, ap, Option, none, List, [], ◌∷◌, leb, arith, length, Bytes, bytes_eq, All,
  Bool-cases, Option-cases, inl, inr,
}
use xtunnel.Base.Dict.{get, put, text_eq, Distinct, put-Distinct, All-put, All-delete, All-get}
use xtunnel.Reverse.Manager.{
  Spec, ReverseListener, ClientMap, Manager, map_of, with_map, listener_of, parse_listener_spec,
  open_listener, answer_listen, handle_reverse_listen, shutdown_client, shutdown,
}

-- A specification has one listener of the client's at most, and there are no more than the limit.
abbrev pub IsWithin : ℕ → Bytes × ClientMap → Type 0
IsWithin n kv = Distinct kv.1 × (length kv.1 ≤ n)

abbrev pub IsBounded : Manager → Type 0
IsBounded m = All (IsWithin m.max_per_client) m.clients

pub length-put :
    (k : Bytes) (l : ReverseListener) (m : ClientMap)
    → get k m ≡ none
    → length (put k l m) ≡ suc (length m)
unfolding get put
length-put k l [] e = refl
length-put k l ((j, w) ∷ m) e = elim (Bool-cases (bytes_eq j k)) [
  | inl hit ↦ absurd (cc (rw hit at e))
  | inr miss ↦ rw miss (ap suc (length-put k l m (rw miss at e)))
]

map_of-IsWithin :
    (client : Bytes) (m : Manager)
    → IsBounded m
    → IsWithin m.max_per_client (client, map_of client m)
map_of-IsWithin client m h = elim (Option-cases (get client m.clients)) [
  | inl missing ↦ rw (map_of, missing) (tt, omega arith)
  | inr (listeners, found) ↦
      rw (map_of, found) (All-get (IsWithin m.max_per_client) client m.clients listeners h found)
]

with_map-IsBounded :
    (client : Bytes) (listeners : ClientMap) (m : Manager)
    → IsBounded m
    → IsWithin m.max_per_client (client, listeners)
    → IsBounded (with_map client listeners m)
with_map-IsBounded client listeners m h w =
    All-put (IsWithin m.max_per_client) client listeners m.clients w h

open_listener-IsBounded :
    (starts : Spec → Option Bytes) (client listener_id spec : Bytes) (listeners : ClientMap)
    (m : Manager)
    → IsBounded m
    → Distinct listeners
    → suc (length listeners) ≤ m.max_per_client
    → get spec listeners ≡ none
    → IsBounded (open_listener starts client listener_id spec listeners m).1
unfolding open_listener
open_listener-IsBounded starts client listener_id spec listeners m h d room free =
    elim (Option-cases (parse_listener_spec spec)) [
      | inl bad ↦ rw (open_listener, bad) h
      | inr (s, parsed) ↦ elim (Option-cases (starts s)) [
        | inr (error, failed) ↦ rw (open_listener, parsed, failed) h
        | inl started ↦
            let l : ReverseListener = listener_of spec listener_id s in
            rw (open_listener, parsed, started)
              (with_map-IsBounded client (put spec l listeners) m h (
                put-Distinct spec l listeners d,
                omega (arith, length-put spec l listeners free, room),
              ))
      ]
    ]

answer_listen-IsBounded :
    (starts : Spec → Option Bytes) (client listener_id spec : Bytes) (m : Manager)
    → IsBounded m
    → IsBounded (answer_listen starts client listener_id spec m).1
unfolding answer_listen
answer_listen-IsBounded starts client listener_id spec m h =
    let listeners : ClientMap = map_of client m in
    let within = map_of-IsWithin client m h in
    let known : IsBounded (with_map client listeners m) =
      with_map-IsBounded client listeners m h within in
    elim (Bool-cases m.attached) [
      | inr loose ↦ rw (answer_listen, loose) h
      | inl attached ↦ elim (Option-cases (get spec listeners)) [
        | inr (l, found) ↦ rw (answer_listen, attached, found) known
        | inl free ↦ elim (Bool-cases (leb m.max_per_client (length listeners))) [
          | inl full ↦ rw (answer_listen, attached, free, full) known
          | inr room ↦
              rw (answer_listen, attached, free, room)
                (open_listener-IsBounded starts client listener_id spec listeners
                  (with_map client listeners m) known within.0 (ground (arith, room)) free)
        ]
      ]
    ]

-- What happens to the manager: a request, a client that is gone, and the end of the server.
pub data Event : Type 0 where
  listens : (Spec → Option Bytes) → Bytes → ℕ → Bytes → Bytes → Event
  leaves : Bytes → Event
  stops : Event

abbrev pub step : Event → Manager → Manager
step (listens starts client ch listener_id spec) m =
    (handle_reverse_listen starts client ch listener_id spec m).1
step (leaves client) m = (shutdown_client client m).1
step stops m = (shutdown m).1

abbrev pub run : List Event → Manager → Manager
run [] m = m
run (e ∷ events) m = run events (step e m)

left-IsBounded :
    (client : Bytes) (m : Manager) → IsBounded m → IsBounded (shutdown_client client m).1
unfolding shutdown_client
left-IsBounded client m h = elim (Option-cases (get client m.clients)) [
  | inl unknown ↦ rw (shutdown_client, unknown) h
  | inr (listeners, found) ↦
      rw (shutdown_client, found) (All-delete (IsWithin m.max_per_client) client m.clients h)
]

step-IsBounded : (e : Event) (m : Manager) → IsBounded m → IsBounded (step e m)
step-IsBounded (listens starts client ch listener_id spec) m h =
    unfold handle_reverse_listen in answer_listen-IsBounded starts client listener_id spec m h
step-IsBounded (leaves client) m h = left-IsBounded client m h
step-IsBounded stops m h = unfold shutdown in tt

-- No order of requests, of clients that leave and of shutdowns gives a client more listeners than the
-- limit, or a specification two.
pub run-IsBounded : (events : List Event) (m : Manager) → IsBounded m → IsBounded (run events m)
run-IsBounded [] m h = h
run-IsBounded (e ∷ events) m h = run-IsBounded events (step e m) (step-IsBounded e m h)

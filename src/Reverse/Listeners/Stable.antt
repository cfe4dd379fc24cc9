-- ===== src/Reverse/Listeners/Stable.antt =====
-- reverse.go: the ids of the reverse listeners, and when their registration is reported as failed.
use xtunnel.Base.{
  ℕ, ◌≡◌, map, refl, sym, ap, ◌∙◌, Bool, true, none, some, List, [], ◌∷◌, ◌==◌, arith,
  if◌then◌else◌, length, any, Bytes, bytes_eq_iff, bytes_eq_refl, Bool-cases, Option-cases, inl,
  inr,
}
use xtunnel.Base.Dict.{get, text_eq, get-put}
use xtunnel.Reverse.{Send}
use xtunnel.Reverse.Listeners.{
  ReverseListenerState, Listeners, get_or_create_listener_id, dedupe_specs, listen_frame,
  register_all, reverse_on_channel_ready, Why, why_of, fatal_of, collect_failures,
  check_reverse_reg_fatal,
}

-- The id of a specification, once it has one.
abbrev IdOf : Bytes → Bytes → Listeners → Type 0
IdOf spec id l = get spec l.ids ≡ some id

creates :
    (uuid spec : Bytes) (l : Listeners)
    → let r = get_or_create_listener_id uuid spec l in IdOf spec r.0 r.1
unfolding get_or_create_listener_id
creates uuid spec l = elim (Option-cases (get spec l.ids)) [
  | inl missing ↦
      rw (get_or_create_listener_id, missing)
        (get-put spec spec uuid l.ids ∙ rw (bytes_eq_refl spec) refl)
  | inr (id, found) ↦ rw (get_or_create_listener_id, found) found
]

keeps :
    (uuid spec other id : Bytes) (l : Listeners)
    → IdOf other id l
    → IdOf other id (get_or_create_listener_id uuid spec l).1
unfolding get_or_create_listener_id
keeps uuid spec other id l known = elim (Option-cases (get spec l.ids)) [
  | inl missing ↦
      rw (get_or_create_listener_id, missing)
        (get-put spec other uuid l.ids
          ∙ ground (arith, bytes_eq_iff spec other, known, missing, ap (λ x. get x l.ids)))
  | inr (i, found) ↦ rw (get_or_create_listener_id, found) known
]

armed_kept :
    (uuid spec : Bytes) (l : Listeners) → (get_or_create_listener_id uuid spec l).1.armed ≡ l.armed
unfolding get_or_create_listener_id
armed_kept uuid spec l = elim (Option-cases (get spec l.ids)) [
  | inl missing ↦ rw (get_or_create_listener_id, missing) refl
  | inr (i, found) ↦ rw (get_or_create_listener_id, found) refl
]

again :
    (uuid spec id : Bytes) (l : Listeners)
    → IdOf spec id l
    → get_or_create_listener_id uuid spec l ≡ (id, l)
unfolding get_or_create_listener_id
again uuid spec id l known = rw (get_or_create_listener_id, known) refl

register_all-keeps :
    (fresh : Bytes → Bytes) (ch : ℕ) (specs : List Bytes) (other id : Bytes) (l : Listeners)
    → IdOf other id l
    → IdOf other id (register_all fresh ch specs l).1
unfolding register_all
register_all-keeps fresh ch [] other id l known = known
register_all-keeps fresh ch (spec ∷ specs) other id l known =
    register_all-keeps fresh ch specs other id (get_or_create_listener_id (fresh spec) spec l).1
      (keeps (fresh spec) spec other id l known)

register_all-armed :
    (fresh : Bytes → Bytes) (ch : ℕ) (specs : List Bytes) (l : Listeners)
    → (register_all fresh ch specs l).1.armed ≡ l.armed
unfolding register_all
register_all-armed fresh ch [] l = refl
register_all-armed fresh ch (spec ∷ specs) l =
    register_all-armed fresh ch specs (get_or_create_listener_id (fresh spec) spec l).1
    ∙ armed_kept (fresh spec) spec l

abbrev pub retarget : ℕ → Send → Send
retarget ch s = record s { to = some ch }

-- The same specifications again, with any store of ids that holds theirs.
register_all_again :
    (fresh fresh' : Bytes → Bytes) (ch ch' : ℕ) (specs : List Bytes) (l k : Listeners)
    → ((spec id : Bytes) → IdOf spec id (register_all fresh ch specs l).1 → IdOf spec id k)
    → register_all fresh' ch' specs k ≡ (map (retarget ch') (register_all fresh ch specs l).0, k)
unfolding register_all
register_all_again fresh fresh' ch ch' [] l k same = refl
register_all_again fresh fresh' ch ch' (spec ∷ specs) l k same =
    let made : Bytes × Listeners = get_or_create_listener_id (fresh spec) spec l in
    let known : IdOf spec made.0 k =
      same spec made.0
        (register_all-keeps fresh ch specs spec made.0 made.1 (creates (fresh spec) spec l)) in
    ap
      (λ (r : Bytes × Listeners). (
        listen_frame ch' r.0 spec ∷ (register_all fresh' ch' specs r.1).0,
        (register_all fresh' ch' specs r.1).1,
      ))
      (again (fresh' spec) spec made.0 k known)
    ∙ ap (λ (r : List Send × Listeners). (listen_frame ch' made.0 spec ∷ r.0, r.1))
        (register_all_again fresh fresh' ch ch' specs made.1 k same)

-- A channel that becomes ready after another sends the same registrations as that one did, under the
-- same ids, and changes nothing.
pub registration_repeats :
    (fresh fresh' : Bytes → Bytes) (configured : List Bytes) (ch ch' : ℕ) (l : Listeners)
    → let first = reverse_on_channel_ready fresh true configured ch l in
      reverse_on_channel_ready fresh' true configured ch' first.1
      ≡ (map (retarget ch') first.0, first.1)
unfolding reverse_on_channel_ready
registration_repeats fresh fresh' configured ch ch' l = elim (Bool-cases (length configured == 0)) [
  | inl unset ↦ rw (reverse_on_channel_ready, unset) refl
  | inr set ↦
      let specs : List Bytes = dedupe_specs [] configured in
      let first : List Send × Listeners = register_all fresh ch specs (record l { armed = true }) in
      let armed : record (first.1) { armed = true } ≡ first.1 =
        ap (λ b. record (first.1) { armed = b })
          (sym (register_all-armed fresh ch specs (record l { armed = true }))) in
      rw (reverse_on_channel_ready, set)
        (ap (register_all fresh' ch' specs) armed
          ∙ register_all_again fresh fresh' ch ch' specs (record l { armed = true }) first.1
              (λ spec id h. h))
]

abbrev pub is_ok : Bytes × ReverseListenerState → Bool
is_ok kv = kv.1.ok

abbrev pub failure_of : Bytes × ReverseListenerState → Bytes × Why
failure_of kv = (kv.1.spec, why_of kv.1)

collect_failures_lem :
    (states : List (Bytes × ReverseListenerState))
    → collect_failures states ≡ (if any is_ok states then none else some (map failure_of states))
unfolding collect_failures
collect_failures_lem [] = refl
collect_failures_lem ((id, st) ∷ states) = elim (Bool-cases st.ok) [
  | inl fine ↦ rw (collect_failures, fine) refl
  | inr bad ↦ elim (Bool-cases (any is_ok states)) [
    | inl later ↦ rw (collect_failures, bad, collect_failures_lem states, later) refl
    | inr nobody ↦ rw (collect_failures, bad, collect_failures_lem states, nobody) refl
  ]
]

-- The check reports nothing where some listener is registered; else it reports every listener with
-- the reason of its failure, or silence where there is no listener.
pub check_reverse_reg_fatal_lem :
    (l : Listeners)
    → check_reverse_reg_fatal l
      ≡ (if any is_ok l.states then none else some (fatal_of (map failure_of l.states)))
unfolding check_reverse_reg_fatal
check_reverse_reg_fatal_lem l = elim (Bool-cases (any is_ok l.states)) [
  | inl later ↦ rw (check_reverse_reg_fatal, collect_failures_lem l.states, later) refl
  | inr nobody ↦ rw (check_reverse_reg_fatal, collect_failures_lem l.states, nobody) refl
]

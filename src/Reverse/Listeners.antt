-- ===== src/Reverse/Listeners.antt =====
-- reverse.go: the registration of the client's reverse listeners. A new UUID for a specification is
-- a parameter. The timer that calls checkReverseRegFatal is armed by the first registration.
pub mod Stable
use xtunnel.Base.{
  ℕ, Bool, true, false, not, ◌&&◌, ◌||◌, Option, none, some, List, [], ◌∷◌, ◌++◌, ◌==◌,
  if◌then◌else◌, length, get_or, drop, any, Bytes, bytes_eq, is_empty,
}
use xtunnel.Base.Dict.{get, put, text_eq}
use xtunnel.Protocol.Message.{Message, msg_reverse_listen}
use xtunnel.Reverse.{Send, message}

pub record ReverseListenerState : Type 0 where
  pub spec : Bytes
  pub ok : Bool
  pub reason : Bytes
  pub responded : Bool

-- reverseListenerMap, from a specification to an id, and reverseListenerState, from an id.
pub record Listeners : Type 0 where
  pub ids : List (Bytes × Bytes)
  pub states : List (Bytes × ReverseListenerState)
  pub armed : Bool

abbrev pub unanswered : Bytes → ReverseListenerState
unanswered spec = record { spec = spec; ok = false; reason = []; responded = false }

abbrev pub record_state :
    Bytes → Bytes → List (Bytes × ReverseListenerState) → List (Bytes × ReverseListenerState)
record_state id spec states = elim (get id states) [
  | some st ↦ states
  | none ↦ put id (unanswered spec) states
]

unfoldable pub get_or_create_listener_id : Bytes → Bytes → Listeners → Bytes × Listeners
get_or_create_listener_id uuid spec l = elim (get spec l.ids) [
  | some id ↦ (id, l)
  | none ↦ (uuid, record l { ids = put spec uuid l.ids; states = record_state uuid spec l.states })
]

-- The specifications that are not in `specs`, each once, behind it.
unfoldable pub dedupe_specs : List Bytes → List Bytes → List Bytes
dedupe_specs specs [] = specs
dedupe_specs specs (s ∷ rest) =
    if any (λ ss. bytes_eq ss s) specs
    then dedupe_specs specs rest
    else dedupe_specs (specs ++ (s ∷ [])) rest

abbrev pub listen_frame : ℕ → Bytes → Bytes → Send
listen_frame ch id spec = record { to = some ch; frame = message msg_reverse_listen id spec [] }

unfoldable pub register_all : (Bytes → Bytes) → ℕ → List Bytes → Listeners → List Send × Listeners
register_all fresh ch [] l = ([], l)
register_all fresh ch (spec ∷ specs) l =
    let created = get_or_create_listener_id (fresh spec) spec l in
    let rest = register_all fresh ch specs created.1 in
    (listen_frame ch created.0 spec ∷ rest.0, rest.1)

unfoldable pub reverse_on_channel_ready :
    (Bytes → Bytes) → Bool → List Bytes → ℕ → Listeners → List Send × Listeners
reverse_on_channel_ready fresh enabled configured ch l =
    if not enabled || length configured == 0
    then ([], l)
    else register_all fresh ch (dedupe_specs [] configured) (record l { armed = true })

unfoldable pub handle_reverse_listen_result : Bytes → Bytes → Listeners → Listeners
handle_reverse_listen_result id meta l = if length meta == 0 then l else elim (get id l.states) [
  | none ↦ l
  | some st ↦ record l {
    states =
        put id (record st { ok = get_or meta 0 0 == 0; reason = drop 1 meta; responded = true })
          l.states;
  }
]

-- Why a listener is not registered: the server's reason, no answer, or an answer without a reason.
pub data Why : Type 0 where
  told : Bytes → Why
  no_answer no_reason : Why

abbrev pub why_of : ReverseListenerState → Why
why_of st =
    if not (is_empty st.reason)
    then told st.reason
    else if not st.responded
    then no_answer
    else no_reason

-- The loop over the listeners: none where one is registered, else the failures.
unfoldable pub collect_failures : List (Bytes × ReverseListenerState) → Option (List (Bytes × Why))
collect_failures [] = some []
collect_failures ((id, st) ∷ states) =
    let rest = collect_failures states in
    if st.ok
    then none
    else elim rest [ none ↦ none | some failures ↦ some ((st.spec, why_of st) ∷ failures) ]

pub data Fatal : Type 0 where
  all_silent : Fatal
  all_failed : List (Bytes × Why) → Fatal

abbrev pub fatal_of : List (Bytes × Why) → Fatal
fatal_of [] = all_silent
fatal_of (f ∷ failures) = all_failed (f ∷ failures)

-- checkReverseRegFatal: the error that it reports, if any.
unfoldable pub check_reverse_reg_fatal : Listeners → Option Fatal
check_reverse_reg_fatal l = elim (collect_failures l.states) [
  | none ↦ none
  | some failures ↦ some (fatal_of failures)
]

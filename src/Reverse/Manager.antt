-- ===== src/Reverse/Manager.antt =====
-- reverse_listener.go: the server's listeners, by client and specification. Whether a proxy server
-- starts is a parameter: none, or the text of its error.
pub mod Bounded
pub mod Told
use xtunnel.Base.{
  ℕ, suc, ◌+◌, Bool, true, false, not, ◌&&◌, ◌||◌, Option, none, some, List, [], ◌∷◌, ◌++◌, ◌==◌,
  leb, if◌then◌else◌, length, take, drop, Bytes, codes, is_empty, has_prefix, index_byte, map,
}
use xtunnel.Base.Dict.{get, put, delete, text_eq}
use xtunnel.Protocol.Message.{msg_reverse_listen_result}
use xtunnel.Reverse.{Send, message}

pub data Scheme : Type 0 where
  socks5 http : Scheme

pub record Spec : Type 0 where
  pub host : Bytes
  pub user : Bytes
  pub pass : Bytes
  pub scheme : Scheme

-- strings.SplitN(s, sep, 2), where the separator occurs.
abbrev pub split_first : ℕ → Bytes → Option (Bytes × Bytes)
split_first sep s = elim (index_byte s sep) [
  | none ↦ none
  | some i ↦ some (take i s, drop (i + 1) s)
]

abbrev pub with_auth : Scheme → Bytes → Bytes → Spec
with_auth scheme auth host = elim (split_first b':' auth) [
  | some ub ↦ record { host = host; user = ub.0; pass = ub.1; scheme = scheme }
  | none ↦ record { host = host; user = auth; pass = []; scheme = scheme }
]

abbrev pub parse_rest : Scheme → Bytes → Spec
parse_rest scheme rest = elim (split_first b'@' rest) [
  | some parts ↦ with_auth scheme parts.0 parts.1
  | none ↦ record { host = rest; user = []; pass = []; scheme = scheme }
]

abbrev pub socks5_prefix : Bytes
socks5_prefix = codes "socks5://"

abbrev pub http_prefix : Bytes
http_prefix = codes "http://"

unfoldable pub parse_listener_spec : Bytes → Option Spec
parse_listener_spec spec =
    if has_prefix spec socks5_prefix
    then some (parse_rest socks5 (drop (length socks5_prefix) spec))
    else if has_prefix spec http_prefix
    then some (parse_rest http (drop (length http_prefix) spec))
    else none

pub record ReverseListener : Type 0 where
  pub spec : Bytes
  pub listener_id : Bytes
  pub server : Spec

abbrev pub ClientMap : Type 0
ClientMap = List (Bytes × ReverseListener)

-- `attached` is `m.pool != nil`.
pub record Manager : Type 0 where
  pub max_per_client : ℕ
  pub clients : List (Bytes × ClientMap)
  pub attached : Bool

-- NewReverseListenerManager, and the pool that newServerPool gives it.
abbrev pub new_manager : ℕ → Manager
new_manager n = record { max_per_client = if n == 0 then 3 else n; clients = []; attached = true }

abbrev pub map_of : Bytes → Manager → ClientMap
map_of client m = elim (get client m.clients) [ none ↦ [] | some listeners ↦ listeners ]

abbrev pub with_map : Bytes → ClientMap → Manager → Manager
with_map client listeners m = record m { clients = put client listeners m.clients }

-- What a request is answered: StatusOK is 0, StatusERR is 1.
pub data Answer : Type 0 where
  fine : Answer
  refused : Bytes → Answer

abbrev pub meta_of : Answer → Bytes
meta_of fine = 0 ∷ []
meta_of (refused reason) = 1 ∷ reason

-- Without a pool no frame is sent.
abbrev pub reply : ℕ → Bytes → Answer → Manager → List Send
reply ch listener_id a m =
    if m.attached
    then record {
      to = some ch;
      frame = message msg_reverse_listen_result listener_id (meta_of a) [];
    }
      ∷ []
    else []

abbrev pub listener_of : Bytes → Bytes → Spec → ReverseListener
listener_of spec listener_id server = record {
  spec = spec;
  listener_id = listener_id;
  server = server;
}

-- The part behind the limit: parse, start, and keep.
unfoldable pub open_listener :
    (Spec → Option Bytes) → Bytes → Bytes → Bytes → ClientMap → Manager → Answer × Manager
open_listener starts client listener_id spec listeners m = elim (parse_listener_spec spec) [
  | none ↦ (refused (codes "unsupported spec"), m)
  | some s ↦ elim (starts s) [
    | some error ↦ (refused error, m)
    | none ↦ (fine, with_map client (put spec (listener_of spec listener_id s) listeners) m)
  ]
]

unfoldable pub answer_listen :
    (Spec → Option Bytes) → Bytes → Bytes → Bytes → Manager → Answer × Manager
answer_listen starts client listener_id spec m =
    let listeners = map_of client m in
    let known = with_map client listeners m in
    let opened = open_listener starts client listener_id spec listeners known in
    if not m.attached
    then (refused (codes "manager not initialized"), m)
    else elim (get spec listeners) [
      | some l ↦ (fine, known)
      | none ↦
          if leb m.max_per_client (length listeners)
          then (refused (codes "listener limit reached"), known)
          else opened
    ]

unfoldable pub handle_reverse_listen :
    (Spec → Option Bytes) → Bytes → ℕ → Bytes → Bytes → Manager → List Send × Manager
handle_reverse_listen starts client ch listener_id spec m =
    let r = answer_listen starts client listener_id spec m in (reply ch listener_id r.0 m, r.1)

-- The servers that are closed, and the manager.
unfoldable pub shutdown_client : Bytes → Manager → List Spec × Manager
shutdown_client client m = elim (get client m.clients) [
  | none ↦ ([], m)
  | some listeners ↦ (
    map (λ (kv : Bytes × ReverseListener). kv.1.server) listeners,
    record m { clients = delete client m.clients },
  )
]

unfoldable pub close_all : List (Bytes × ClientMap) → List Spec
close_all [] = []
close_all ((client, listeners) ∷ clients) =
    map (λ (kv : Bytes × ReverseListener). kv.1.server) listeners ++ close_all clients

unfoldable pub shutdown : Manager → List Spec × Manager
shutdown m = (close_all m.clients, record m { clients = [] })

-- ===== src/ServerPool/Admission/Takeover.antt =====
-- server_pool.go: a client reconnects under the number of a channel that is closed and not cleaned up
-- yet.
use xtunnel.Base.{
  ℕ, ◌≡◌, refl, ap, ◌∙◌, true, false, ◌&&◌, some, List, [], ◌∷◌, ◌==◌, ==_refl, arith, Bytes,
  bytes_eq, bytes_eq_refl,
}
use xtunnel.Base.Dict.{text_eq}
use xtunnel.ServerPool.Conns.{Channel, Server, channel_alive, unregister_conn}
use xtunnel.ServerPool.Conns.Cleanup.{
  to_close, unregister_all, take_channel, client_gone, forget_pairs, cleanup_channel,
}
use xtunnel.ServerPool.Admission.{
  Limits, Reply, admitted, is_full, new_channel, with_channel, register,
}

here : (client : Bytes) (ch : ℕ) → (bytes_eq client client && ch == ch) ≡ true
here client ch = rw (bytes_eq_refl client, ==_refl ch) refl

unregister_conn-channels : (id : Bytes) (s : Server) → (unregister_conn id s).channels ≡ s.channels
unfolding unregister_conn
unregister_conn-channels id s = ground arith

unregister_all-channels :
    (ids : List Bytes) (s : Server) → (unregister_all ids s).channels ≡ s.channels
unfolding unregister_all
unregister_all-channels [] s = refl
unregister_all-channels (id ∷ ids) s =
    unregister_all-channels ids (unregister_conn id s) ∙ unregister_conn-channels id s

channel_alive_lem :
    (client : Bytes) (ch : ℕ) (s t : Server)
    → t.channels ≡ s.channels
    → channel_alive client ch t ≡ channel_alive client ch s
unfolding channel_alive
channel_alive_lem client ch s t e = rw (channel_alive, e) refl

stale_free :
    (client : Bytes) (ch : ℕ) (old : Channel) (s : Server)
    → s.channels client ch ≡ some old
    → old.closed ≡ true
    → channel_alive client ch s ≡ false
unfolding channel_alive
stale_free client ch old s found closed = rw (channel_alive, found, closed) refl

taken_free :
    (client : Bytes) (ch : ℕ) (s : Server)
    → channel_alive client ch (take_channel client ch s) ≡ false
unfolding channel_alive
taken_free client ch s = rw (channel_alive, here client ch) refl

registered :
    (limits : Limits) (client : Bytes) (ch : ℕ) (s : Server)
    → is_full limits client s ≡ false
    → channel_alive client ch s ≡ false
    → register limits client ch s ≡ (admitted, with_channel client ch s)
registered limits client ch s room free = rw (room, free) refl

-- `close` marks a channel closed and calls cleanupChannel after it has written to the socket and closed
-- it. Where the client is let in under the same number in between, cleanupChannel takes the channel
-- that it finds under the number, which is the new one: it closes the new websocket, and the number has
-- no channel afterwards, whatever connections have come and gone since.
pub cleanup_channel_takeover :
    (limits : Limits) (client : Bytes) (ch : ℕ) (old : Channel) (s t : Server)
    → s.channels client ch ≡ some old
    → old.closed ≡ true
    → is_full limits client s ≡ false
    → t.channels ≡ (register limits client ch s).1.channels
    → let k = cleanup_channel client ch t in
      ((register limits client ch s).0 ≡ admitted)
      × (t.channels client ch ≡ some (new_channel client ch))
      × (k.closes ≡ some (new_channel client ch))
      × (channel_alive client ch k.server ≡ false)
unfolding cleanup_channel
cleanup_channel_takeover limits client ch old s t found closed room same =
    let made = registered limits client ch s room (stale_free client ch old s found closed) in
    let new : t.channels client ch ≡ some (new_channel client ch) =
      ap (λ f. f client ch) (same ∙ ap (λ (r : Reply × Server). r.1.channels) made)
      ∙ rw (here client ch) refl in
    let taken : Server = take_channel client ch t in
    let ids : List Bytes = to_close client ch t.heap t.conns in
    (
      ap (λ (r : Reply × Server). r.0) made,
      new,
      rw new refl,
      channel_alive_lem client ch taken
            (forget_pairs (client_gone client ch t) client ch (unregister_all ids taken))
            (unregister_all-channels ids taken)
          ∙ taken_free client ch t,
    )

-- ===== src/PairWarmer/Notices/Delivered.antt =====
-- pair_warmer.go, protocol/protocol.go and hotpair_table.go: the client's notification, the frame and
-- the server's table together.
use mathlib.Core.List.{append-nil}
use xtunnel.Base.{
  ℕ, ◌≤◌, ◌<◌, ◌^◌, ◌%◌, ◌≡◌, refl, sym, ap, ◌∙◌, subst, Bool, true, false, Option, some, List, [],
  ◌∷◌, ◌++◌, arith, length, All, Bytes, bytes_eq_refl,
}
use xtunnel.Base.Dict.{text_eq}
use xtunnel.Protocol.Message.{Message, msg_hot_pair_notify, decode_message, ok, clip_id}
use xtunnel.Protocol.Message.RoundTrip.{decode_message-encode_message}
use xtunnel.Protocol.HotPair.{
  HotPairInfo, encode_hot_pair_notify, decode_hot_pair_notify, decode_records,
}
use xtunnel.Protocol.HotPair.RoundTrip.{wire_info, sent, decode_hot_pair_notify-encode}
use xtunnel.HotPairTable.{HotPairEntry, HotPairTable, is_unusable, handle_notify, entry, entry_at}
use xtunnel.HotPairTable.Notify.{told, after_notify, HasKeys, entry-handle_notify}
use xtunnel.PairWarmer.Store.{is_ready, Warmer}
use xtunnel.PairWarmer.Primary.{Has}
use xtunnel.PairWarmer.Notices.{
  Notifier, info_of, heartbeat_hot_pair_notify, filter_pending, batch_of, notify_frame, send_batch,
  first_accepting, flush_hot_pair_notify,
}
use xtunnel.PairWarmer.Notices.Told.{IsMap, Agrees, told-get, filtered_heartbeat}

after_notify-told :
    (now : ℕ) (key : Bytes) (es : List HotPairInfo) (e : HotPairInfo) (old : Option HotPairEntry)
    → told key es ≡ some e
    → after_notify now es (told key es) old ≡ some (entry_at now e)
unfolding told
after_notify-told now key [] e old h = absurd (cc h)
after_notify-told now key (i ∷ es) e old h = rw h refl

decode_nothing : decode_hot_pair_notify [] ≡ []
unfolding decode_hot_pair_notify decode_records
decode_nothing = refl

decode_batch :
    (batch : List HotPairInfo) → decode_hot_pair_notify (encode_hot_pair_notify batch) ≡ sent batch
decode_batch batch =
    ap decode_hot_pair_notify (sym (append-nil (encode_hot_pair_notify batch)))
    ∙ decode_hot_pair_notify-encode batch []
    ∙ ap (λ (es : List HotPairInfo). sent batch ++ es) decode_nothing
    ∙ append-nil (sent batch)

send_batch_taken :
    (ch : ℕ) (key : Bytes) (batch : List HotPairInfo) (e : HotPairInfo) (n : Notifier)
    → told key (sent batch) ≡ some e
    → (send_batch (some ch) batch n).0 ≡ some (ch, notify_frame batch)
unfolding told sent
send_batch_taken ch key [] e n h = absurd (cc h)
send_batch_taken ch key (i ∷ batch) e n h = refl

-- What a heartbeat has to tell: a pair of the queue that is Ready, whose key and channels the
-- notification can carry, and of whose key every Ready pair has the same channels.
pub record IsTellable (w : Warmer) (a : ℕ) : Type 0 where
  pub queued : Has a w.pairs
  pub fit : is_ready (w.heap a).state ≡ true
  pub keyed : (0 < length (w.heap a).prebind_id) × (length (w.heap a).prebind_id ≤ 255)
  pub up : (0 < (w.heap a).uplink) × ((w.heap a).uplink < 2 ^ 32)
  pub down : (0 < (w.heap a).downlink) × ((w.heap a).downlink < 2 ^ 32)
  pub agree : All (λ b. Agrees (info_of (w.heap a)) (w.heap b)) w.pairs

-- The records that the flush after a heartbeat sends.
abbrev pub heartbeat_batch : Warmer → Notifier → List HotPairInfo
heartbeat_batch w n = batch_of (filter_pending w (heartbeat_hot_pair_notify w n))

told_heartbeat :
    (w : Warmer) (n : Notifier) (a : ℕ)
    → IsMap n
    → IsTellable w a
    → told (w.heap a).prebind_id (sent (heartbeat_batch w n)) ≡ some (info_of (w.heap a))
told_heartbeat w n a m s =
    let e : HotPairInfo = info_of (w.heap a) in
    let v : Notifier = filter_pending w (heartbeat_hot_pair_notify w n) in
    let f = filtered_heartbeat w n a m s.queued s.fit (ground (arith, s.keyed)) s.agree in
    let up : e.cha % 2 ^ 32 ≡ e.cha = omega (arith, s.up) in
    let down : e.chb % 2 ^ 32 ≡ e.chb = omega (arith, s.down) in
    let whole : wire_info e ≡ e = λ i. record e { cha = up i; chb = down i } in
    told-get e v.pending f.0.keyed f.0.distinct f.1
      (subst (λ x. is_unusable x ≡ false) (sym whole) (ground (arith, s.keyed, s.up, s.down)))
      s.keyed.1
    ∙ ap some whole

-- After a heartbeat, a flush over channels of which one takes the frame sends a frame that the
-- server's decoder accepts and that gives each Ready pair which can be told its entry in the
-- server's table, with the pair's channels and the time of arrival.
pub heartbeat_reaches_table :
    (accepts : ℕ → Bool) (available : List ℕ) (ch : ℕ) (w : Warmer) (n : Notifier) (a now : ℕ)
    (client : Bytes) (t : HotPairTable)
    → first_accepting accepts available ≡ some ch
    → IsMap n
    → IsTellable w a
    → length (encode_hot_pair_notify (heartbeat_batch w n)) < 2 ^ 32
    → HasKeys client t
    → (frame : Bytes) × (message : Message) × ((flush_hot_pair_notify accepts available w
          (heartbeat_hot_pair_notify w n)).0
        ≡ some (ch, frame))
      × (decode_message frame ≡ ok message)
      × (entry client (w.heap a).prebind_id (handle_notify now client message.payload t)
          ≡ some (entry_at now (info_of (w.heap a))))
unfolding flush_hot_pair_notify
heartbeat_reaches_table accepts available ch w n a now client t taken m s small keys =
    let batch : List HotPairInfo = heartbeat_batch w n in
    let key : Bytes = (w.heap a).prebind_id in
    let payload : Bytes = encode_hot_pair_notify batch in
    let known = told_heartbeat w n a m s in
    let message : Message = record {
      kind = msg_hot_pair_notify;
      conn_id = clip_id [];
      meta = [];
      payload = payload;
    } in
    (
      notify_frame batch,
      message,
      rw taken (
          send_batch_taken ch key batch (info_of (w.heap a))
            (filter_pending w (heartbeat_hot_pair_notify w n)) known),
      ap decode_message (sym (append-nil (notify_frame batch)))
          ∙ decode_message-encode_message msg_hot_pair_notify [] [] payload [] (omega arith) small,
      entry-handle_notify now client client key payload t keys
          ∙ rw (bytes_eq_refl client, decode_batch batch)
              (after_notify-told now key (sent batch) (info_of (w.heap a)) (entry client key t)
                known),
    )

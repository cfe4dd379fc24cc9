-- ===== src/ServerPool/Conns/Safety.antt =====
-- handler.go: what holds of a connection in any order of messages and goroutines.
use xtunnel.Base.{ℕ, inl, inr, refl}
use xtunnel.Base.Dict.{text_eq}
use xtunnel.ServerPool.Conns.{Server}
use xtunnel.ServerPool.Conns.Handlers.{end_dial, handle_tcp_close, forward_data, report_target}
use xtunnel.ServerPool.Conns.Udp.{listen_failed, handle_udp_close, forward_udp_end}
use xtunnel.ServerPool.Conns.Steps.{
  Step, Reach, IsSmall, Evolves, Evolves-trans, same-Evolves, tcp_connect, tcp_data,
  select_downlink, tcp_close, prebind_request, dial_fails, dial_succeeds, dial_reported,
  write_pending, forward, target_ends, udp_connect_begins, udp_listen_fails, udp_published,
  udp_close, udp_forward, udp_ends, channel_lost, channels_change, here, next,
}
use xtunnel.ServerPool.Conns.Begins.{
  send_downlink-Evolves, unregister_conn-Evolves, handle_tcp_connect-Evolves,
  handle_prebind_request-Evolves, begin_udp_connect-Evolves, publish_udp-Evolves,
  forward_udp-Evolves, cleanup_channel-Evolves,
}
use xtunnel.ServerPool.Conns.Moves.{
  dial_failed-Evolves, attach_target-Evolves, deliver-Evolves, handle_tcp_data-Evolves,
  handle_select_downlink-Evolves, forward_end-Evolves,
}

Step-Evolves : {s t : Server} → Step s t → Evolves s.next s t
unfolding handle_tcp_close forward_data report_target listen_failed handle_udp_close forward_udp_end
Step-Evolves {s} (tcp_connect now client ch id meta e) =
    rw e (handle_tcp_connect-Evolves now client ch id meta s)
Step-Evolves {s} (tcp_data accepted ch id payload e) =
    rw e (handle_tcp_data-Evolves s.next accepted ch id payload s)
Step-Evolves {s} (select_downlink client ch id meta e) =
    rw e (handle_select_downlink-Evolves s.next client ch id meta s)
Step-Evolves {s} (tcp_close id e) = rw e (unregister_conn-Evolves s.next id s)
Step-Evolves {s} (prebind_request client ch id meta e) =
    rw e (handle_prebind_request-Evolves client ch id meta s)
Step-Evolves {s} (dial_fails a d e) = rw e (
    Evolves-trans (same-Evolves s.next s (end_dial a s) refl refl)
      (dial_failed-Evolves s.next a (end_dial a s)))
Step-Evolves {s} (dial_succeeds a d e) = rw e (
    Evolves-trans (same-Evolves s.next s (end_dial a s) refl refl)
      (attach_target-Evolves s.next a (end_dial a s)))
Step-Evolves {s} (dial_reported a e) = rw e (send_downlink-Evolves s.next _ _ _ _ s)
Step-Evolves {s} (write_pending accepted a bytes e) =
    rw e (deliver-Evolves s.next accepted a (s.heap a).conn_id bytes s)
Step-Evolves {s} (forward a payload e) = rw e (send_downlink-Evolves s.next _ _ _ _ s)
Step-Evolves {s} (target_ends a e) = rw e (forward_end-Evolves s.next a s)
Step-Evolves {s} (udp_connect_begins client ch id meta e) =
    rw e (begin_udp_connect-Evolves s.next client ch id meta s)
Step-Evolves {s} (udp_listen_fails c e) = rw e (send_downlink-Evolves s.next _ _ _ _ s)
Step-Evolves {s} (udp_published client ch id target strategy e) =
    rw e (publish_udp-Evolves client ch id target strategy s)
Step-Evolves {s} (udp_close id e) = rw e (unregister_conn-Evolves s.next id s)
Step-Evolves {s} (udp_forward a reply_addr payload e) =
    rw e (forward_udp-Evolves s.next a reply_addr payload s)
Step-Evolves {s} (udp_ends a e) = rw e (unregister_conn-Evolves s.next _ s)
Step-Evolves {s} (channel_lost client ch e) = rw e (cleanup_channel-Evolves s.next client ch s)
Step-Evolves {s} (channels_change channels sockets hot_pairs e) = rw e (
    same-Evolves s.next s
      (record s { channels = channels; sockets = sockets; hot_pairs = hot_pairs }) refl refl)

-- In any order of messages and goroutines no connection buffers more than 1 MB, from a start where
-- none does.
pub Reach-IsSmall :
    {s t : Server} → Reach s t → ((b : ℕ) → IsSmall (s.heap b)) → (b : ℕ) → IsSmall (t.heap b)
Reach-IsSmall here h b = h b
Reach-IsSmall (next r x) h b = elim ((Step-Evolves x).changes b) [
  | inl kept ↦ kept.small_kept (Reach-IsSmall r h b)
  | inr made ↦ made.1
]

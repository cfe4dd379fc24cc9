-- ===== src/Reverse/Server/Ends.antt =====
-- reverse_server.go: removeReverseConn, and how DialStream ends.
use xtunnel.Base.{
  ℕ, ◌≡◌, ◌⊎◌, refl, ◌∙◌, true, false, none, some, ==_iff, arith, Bytes, bytes_eq_refl, Bool-cases,
  inl, inr,
}
use xtunnel.Base.Dict.{get, text_eq, get-delete}
use xtunnel.Reverse.Server.{
  Reason, timed_out, cancelled, Server, update, settle, remove_reverse_conn,
}
use xtunnel.Reverse.Server.Dialer.{Wait, result, timer, context, dial_end}

removed_lem :
    (a : ℕ) (id : Bytes) (s : Server)
    → get id s.conns ≡ some a
    → (get id (remove_reverse_conn id s).conns ≡ none)
      × (((remove_reverse_conn id s).store a).settled ≡ true)
      × (((remove_reverse_conn id s).store a).piped ≡ false)
unfolding remove_reverse_conn settle
removed_lem a id s found = (
  rw (remove_reverse_conn, found) (get-delete id id s.conns ∙ rw (bytes_eq_refl id) refl),
  rw (remove_reverse_conn, found) (ground (arith, ==_iff a a)),
  rw (remove_reverse_conn, found) (ground (arith, ==_iff a a)),
)

-- The end of a wait: the application gets its end of the pipe and the connection stays as it is, or it
-- gets an error and the connection is out of the table with its pipe closed. Only a wait that ends
-- with a result of success gives the pipe.
pub dial_end_lem :
    (wait : Wait) (a : ℕ) (id : Bytes) (s : Server)
    → get id s.conns ≡ some a
    → let r = dial_end wait a id s in
      ((r.0 ≡ none) × (wait ≡ result) × ((s.store a).ok ≡ true) × (r.2 ≡ s))
      ⊎ ((why : Reason) × (r.0 ≡ some why)
          × (get id r.2.conns ≡ none)
          × ((r.2.store a).settled ≡ true)
          × ((r.2.store a).piped ≡ false))
unfolding dial_end
dial_end_lem result a id s found = elim (Bool-cases (s.store a).ok) [
  | inl fine ↦ inl (rw (dial_end, fine) refl, refl, fine, rw (dial_end, fine) refl)
  | inr bad ↦
      let gone = removed_lem a id s found in
      inr (
        (s.store a).err_msg,
        rw (dial_end, bad) refl,
        rw (dial_end, bad) gone.0,
        rw (dial_end, bad) gone.1,
        rw (dial_end, bad) gone.2,
      )
]
dial_end_lem timer a id s found =
    let gone = removed_lem a id (update a (settle false timed_out (s.store a)) s) found in
    inr (timed_out, refl, gone.0, gone.1, gone.2)
dial_end_lem (context why) a id s found =
    let gone = removed_lem a id (update a (settle false (cancelled why) (s.store a)) s) found in
    inr (cancelled why, refl, gone.0, gone.1, gone.2)

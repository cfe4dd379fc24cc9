-- ===== src/Reverse/Client/Cleanup.antt =====
-- reverse.go: reverseCleanupChannel, what becomes of each connection when a channel fails.
use mathlib.Core.Option.{some-injective}
use xtunnel.Base.{
  ℕ, ◌≡◌, ap, ◌∙◌, subst, true, false, not, none, some, List, [], ◌∷◌, ◌==◌, ==_iff, arith,
  if◌then◌else◌, Bytes, bytes_eq, Bool-cases, inl, inr,
}
use xtunnel.Base.Dict.{get, text_eq, only, Distinct, get-keep}
use xtunnel.Reverse.Client.{
  ReverseConn, Store, Client, write, close_once, uses_channel, close_on, reverse_cleanup_channel,
}

-- What is made of a connection: shut if it uses the channel.
abbrev pub after : ℕ → ReverseConn → ReverseConn
after ch rc = if uses_channel ch rc then close_once rc else rc

close_once-uses_channel :
    (ch : ℕ) (rc : ReverseConn) → uses_channel ch (close_once rc) ≡ uses_channel ch rc
close_once-uses_channel ch rc = ground arith

close_twice : (rc : ReverseConn) → close_once (close_once rc) ≡ close_once rc
close_twice rc = elim (Bool-cases rc.once) [
  | inl done ↦ ground (arith, done)
  | inr todo ↦ ground (arith, todo)
]

after_twice : (ch : ℕ) (rc : ReverseConn) → after ch (after ch rc) ≡ after ch rc
after_twice ch rc = ground (arith, close_once-uses_channel ch rc, close_twice rc)

-- One round of the loop.
abbrev round : ℕ → ℕ → Store → Store
round ch a s = if uses_channel ch (s a) then write a (close_once (s a)) s else s

round_here : (ch a : ℕ) (s : Store) → round ch a s a ≡ after ch (s a)
round_here ch a s = ground (arith, ==_iff a a)

round_other : (ch a b : ℕ) (s : Store) → (b == a) ≡ false → round ch a s b ≡ s b
round_other ch a b s miss = ground arith

round_same : (ch a b : ℕ) (s : Store) → (a == b) ≡ true → round ch b s a ≡ after ch (s a)
round_same ch a b s hit =
    let path : a ≡ b = (==_iff a b).0 hit in
    subst (λ x. round ch x s a ≡ after ch (s a)) path (round_here ch a s)

close_on_kept :
    (ch a : ℕ) (x : ReverseConn) (conns : List (Bytes × ℕ)) (s : Store)
    → s a ≡ after ch x
    → close_on ch conns s a ≡ after ch x
unfolding close_on
close_on_kept ch a x [] s e = e
close_on_kept ch a x ((id, b) ∷ conns) s e =
    close_on_kept ch a x conns (round ch b s) (elim (Bool-cases (a == b)) [
      | inl hit ↦ round_same ch a b s hit ∙ ap (after ch) e ∙ after_twice ch x
      | inr miss ↦ round_other ch b a s miss ∙ e
    ])

close_on_named :
    (ch a : ℕ) (id : Bytes) (conns : List (Bytes × ℕ)) (s : Store)
    → get id conns ≡ some a
    → close_on ch conns s a ≡ after ch (s a)
unfolding close_on get
close_on_named ch a id [] s found = absurd (cc found)
close_on_named ch a id ((j, b) ∷ conns) s found = elim (Bool-cases (a == b)) [
  | inl hit ↦ close_on_kept ch a (s a) conns (round ch b s) (round_same ch a b s hit)
  | inr miss ↦ elim (Bool-cases (bytes_eq j id)) [
    | inl first ↦
        let path : b ≡ a = some-injective b a (rw first at found) in
        absurd (ground (arith, path, ==_iff a b))
    | inr later ↦
        close_on_named ch a id conns (round ch b s) (rw later at found)
        ∙ ap (after ch) (round_other ch b a s miss)
  ]
]

-- A channel that fails takes a connection out of the table, and closes its socket unless it was
-- closed before, where the connection sends or receives on the channel; one that does not stays
-- as it was.
pub reverse_cleanup_channel_lem :
    (ch a : ℕ) (id : Bytes) (c : Client)
    → Distinct c.conns
    → get id c.conns ≡ some a
    → let uses = uses_channel ch (c.store a) in
      let c' = reverse_cleanup_channel ch c in
      (get id c'.conns ≡ (if uses then none else some a))
      × (c'.store a ≡ (if uses then close_once (c.store a) else c.store a))
unfolding reverse_cleanup_channel
reverse_cleanup_channel_lem ch a id c d found = (
  get-keep (λ kv. not (uses_channel ch (c.store kv.1))) id c.conns d
      ∙ ap (only (λ v. not (uses_channel ch (c.store v)))) found
      ∙ ground arith,
  close_on_named ch a id c.conns c.store found,
)

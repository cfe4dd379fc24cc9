-- ===== src/ServerPool/Backpressure/Resets.antt =====
-- connection.go: asyncWrite where the write queue is full, and notifyChannelReset. Times are in
-- nanoseconds.
use xtunnel.Base.{
  ℕ, suc, ◌+◌, ◌-◌, ◌*◌, ◌≤◌, ◌<◌, ◌≡◌, ◌⊎◌, refl, ◌∙◌, subst, Bool, true, false, ◌&&◌, Option,
  none, some, List, [], ◌∷◌, ltb, leb, if◌then◌else◌, arith, length, Bool-cases, inl, inr,
}
use xtunnel.Protocol.Wire.{put_u32}
use xtunnel.Protocol.Message.{Message, msg_channel_reset}

-- The fields of ServerWSConn that count full queues; none is the zero time. A send that succeeds
-- leaves them as they are.
pub record FullQueue : Type 0 where
  pub count : ℕ
  pub last_full : Option ℕ
  pub last_reset : Option ℕ

abbrev pub new_full_queue : FullQueue
new_full_queue = record { count = 0; last_full = none; last_reset = none }

-- `t.IsZero() || now.Sub(t) > d`.
abbrev pub is_past : ℕ → ℕ → Option ℕ → Bool
is_past d now none = true
is_past d now (some t) = ltb d (now - t)

abbrev pub second : ℕ
second = 1000000000

abbrev pub reset_cooldown : ℕ
reset_cooldown = 5 * second

abbrev pub counted : ℕ → FullQueue → FullQueue
counted now q = record q {
  count = suc (if is_past second now q.last_full then 0 else q.count);
  last_full = some now;
}

-- Whether the channel is to be reset.
unfoldable pub on_full : ℕ → FullQueue → Bool × FullQueue
on_full now q =
    let c = counted now q in
    if leb 5 c.count && is_past reset_cooldown now c.last_reset
    then (true, record c { count = 0; last_reset = some now })
    else (false, c)

-- The frame of notifyChannelReset, which a closed channel does not send.
abbrev pub notify_channel_reset : Bool → ℕ → Option Message
notify_channel_reset closed ch =
    if closed
    then none
    else some (record { kind = msg_channel_reset; conn_id = []; meta = put_u32 ch; payload = [] })

-- The resets of a channel whose queue is found full at these times.
unfoldable pub resets : List ℕ → FullQueue → List ℕ
resets [] q = []
resets (now ∷ times) q =
    let r = on_full now q in let later = resets times r.1 in if r.0 then now ∷ later else later

-- More than five seconds later, if there is a time before.
abbrev pub IsAfter : Option ℕ → ℕ → Type 0
IsAfter none t = Unit {0}
IsAfter (some last) t = last + 5000000000 < t

abbrev pub IsSpaced : Option ℕ → List ℕ → Type 0
IsSpaced last [] = Unit {0}
IsSpaced last (t ∷ ts) = IsAfter last t × IsSpaced (some t) ts

past→IsAfter : (t : ℕ) (last : Option ℕ) → is_past reset_cooldown t last ≡ true → IsAfter last t
past→IsAfter t none h = tt
past→IsAfter t (some last) h = ground arith

on_full_cases :
    (now : ℕ) (q : FullQueue)
    → let r = on_full now q in
      ((r.0 ≡ true)
        × (is_past reset_cooldown now q.last_reset ≡ true)
        × (r.1.last_reset ≡ some now)
        × (5 + r.1.count ≤ suc q.count))
      ⊎ ((r.0 ≡ false) × (r.1.last_reset ≡ q.last_reset) × (r.1.count ≤ suc q.count))
unfolding on_full
on_full_cases now q = elim (Bool-cases (is_past second now q.last_full)) [
  | inl gap ↦ rw (on_full, gap) (inr (refl, refl, omega arith))
  | inr soon ↦ elim (Bool-cases (leb 5 (suc q.count))) [
    | inr few ↦ rw (on_full, soon, few) (inr (refl, refl, omega arith))
    | inl many ↦ elim (Bool-cases (is_past reset_cooldown now q.last_reset)) [
      | inl past ↦ rw (on_full, soon, many, past) (inl (refl, refl, refl, ground (arith, many)))
      | inr early ↦ rw (on_full, soon, many, early) (inr (refl, refl, omega arith))
    ]
  ]
]

resets-IsSpaced : (times : List ℕ) (q : FullQueue) → IsSpaced q.last_reset (resets times q)
unfolding resets
resets-IsSpaced [] q = tt
resets-IsSpaced (now ∷ times) q = elim (on_full_cases now q) [
  | inl (asked, past, at_now, few) ↦
      rw (resets, asked)
        (
          past→IsAfter now q.last_reset past,
          subst (λ o. IsSpaced o (resets times (on_full now q).1)) at_now
              (resets-IsSpaced times (on_full now q).1),
        )
  | inr (quiet, same, few) ↦
      rw (resets, quiet)
        (subst (λ o. IsSpaced o (resets times (on_full now q).1)) same
          (resets-IsSpaced times (on_full now q).1))
]

length-resets-le :
    (times : List ℕ) (q : FullQueue) → 5 * length (resets times q) ≤ length times + q.count
unfolding resets
length-resets-le [] q = omega arith
length-resets-le (now ∷ times) q = elim (on_full_cases now q) [
  | inl (asked, past, at_now, few) ↦
      rw (resets, asked) (omega (arith, length-resets-le times (on_full now q).1, few))
  | inr (quiet, same, few) ↦
      rw (resets, quiet) (omega (arith, length-resets-le times (on_full now q).1, few))
]

-- Whenever a channel's queue is found full, its resets are more than five seconds apart, and five full
-- queues at least stand behind each.
pub resets_rare :
    (times : List ℕ)
    → let r = resets times new_full_queue in IsSpaced none r × (5 * length r ≤ length times)
resets_rare times =
    (resets-IsSpaced times new_full_queue, omega (arith, length-resets-le times new_full_queue))

abbrev waiting : ℕ → ℕ → FullQueue
waiting n t = record { count = n; last_full = some t; last_reset = none }

soon_after : (t now : ℕ) → now ≤ t + second → is_past second now (some t) ≡ false
soon_after t now h = ground arith

on_full_early :
    (n t now : ℕ)
    → suc n < 5
    → now ≤ t + second
    → on_full now (waiting n t) ≡ (false, waiting (suc n) now)
unfolding on_full
on_full_early n t now few soon = rw (on_full, soon_after t now soon) (rw (ltb_leb (suc n) few) refl)
  where
    ltb_leb : (m : ℕ) → m < 5 → leb 5 m ≡ false
    ltb_leb m h = ground arith

on_full_fifth :
    (t now : ℕ)
    → now ≤ t + second
    → on_full now (waiting 4 t)
      ≡ (true, record { count = 0; last_full = some now; last_reset = some now })
unfolding on_full
on_full_fifth t now soon = rw (on_full, soon_after t now soon) refl

resets_quiet :
    (now : ℕ) (times : List ℕ) (q r : FullQueue)
    → on_full now q ≡ (false, r)
    → resets (now ∷ times) q ≡ resets times r
unfolding resets
resets_quiet now times q r e = rw (resets, e) refl

resets_asked :
    (now : ℕ) (q r : FullQueue) → on_full now q ≡ (true, r) → resets (now ∷ []) q ≡ now ∷ []
unfolding resets
resets_asked now q r e = rw (resets, e) refl

on_full_first : (now : ℕ) → on_full now new_full_queue ≡ (false, waiting 1 now)
unfolding on_full
on_full_first now = refl

-- Five full queues of a new channel reset it at the fifth where each comes within a second of the one
-- before, though the five may spread over four seconds.
pub slow_fulls_reset :
    (t1 t2 t3 t4 t5 : ℕ)
    → t2 ≤ t1 + second
    → t3 ≤ t2 + second
    → t4 ≤ t3 + second
    → t5 ≤ t4 + second
    → resets (t1 ∷ t2 ∷ t3 ∷ t4 ∷ t5 ∷ []) new_full_queue ≡ t5 ∷ []
slow_fulls_reset t1 t2 t3 t4 t5 a b c d =
    resets_quiet t1 (t2 ∷ t3 ∷ t4 ∷ t5 ∷ []) new_full_queue (waiting 1 t1) (on_full_first t1)
    ∙ (resets_quiet t2 (t3 ∷ t4 ∷ t5 ∷ []) (waiting 1 t1) (waiting 2 t2)
          (on_full_early 1 t1 t2 (omega arith) a)
        ∙ (resets_quiet t3 (t4 ∷ t5 ∷ []) (waiting 2 t2) (waiting 3 t3)
              (on_full_early 2 t2 t3 (omega arith) b)
            ∙ (resets_quiet t4 (t5 ∷ []) (waiting 3 t3) (waiting 4 t4)
                  (on_full_early 3 t3 t4 (omega arith) c)
                ∙ resets_asked t5 (waiting 4 t4)
                    (record { count = 0; last_full = some t5; last_reset = some t5 })
                    (on_full_fifth t4 t5 d))))

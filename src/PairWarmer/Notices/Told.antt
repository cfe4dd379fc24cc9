-- ===== src/PairWarmer/Notices/Told.antt =====
-- pair_warmer.go and hotpair_table.go: a Ready pair of the client reaches the server's table.
use mathlib.Core.Option.{some-injective}
use xtunnel.Base.{
  ℕ, ◌≤◌, ◌<◌, ◌≡◌, ◌⊎◌, inl, inr, refl, ap, ◌∙◌, subst, Bool, true, false, ◌&&◌, ◌||◌, none, some,
  List, [], ◌∷◌, ◌==◌, ltb, ==_iff, arith, length, map, keep, All, Bool-cases, if◌then◌else◌, Bytes,
  bytes_eq, bytes_eq_iff, bytes_eq_refl, is_empty, All-keep,
}
use xtunnel.Base.Dict.{
  get, text_eq, only, Fresh, Distinct, get-put, get-keep, put-Distinct, keep-Distinct, All-put,
}
use xtunnel.Protocol.HotPair.{HotPairInfo}
use xtunnel.Protocol.HotPair.RoundTrip.{wire_info, sent}
use xtunnel.HotPairTable.{is_unusable}
use xtunnel.HotPairTable.Notify.{told}
use xtunnel.PairWarmer.Store.{is_ready, Pair, Heap, Warmer}
use xtunnel.PairWarmer.Primary.{Has}
use xtunnel.PairWarmer.Notices.{
  Notifier, info_of, queue_hot_pair_notify, queue_all, heartbeat_hot_pair_notify, find_ready,
  is_some, filter_pending,
}

abbrev pub Pending : Type 0
Pending = List (Bytes × HotPairInfo)

abbrev pub IsKeyed : Bytes × HotPairInfo → Type 0
IsKeyed kv = kv.1.key ≡ kv.0

-- The queue of notifications is a map from a pair's key to a record of that key.
pub record IsMap (n : Notifier) : Type 0 where
  pub distinct : Distinct n.pending
  pub keyed : All IsKeyed n.pending

queue_hot_pair_notify-IsMap :
    (p : Pair) (n : Notifier) → IsMap n → IsMap (queue_hot_pair_notify p n)
unfolding queue_hot_pair_notify
queue_hot_pair_notify-IsMap p n m = elim (Bool-cases (is_empty p.prebind_id)) [
  | inl unset ↦ rw (queue_hot_pair_notify, unset) m
  | inr set ↦
      rw (queue_hot_pair_notify, set)
        record {
          distinct = put-Distinct p.prebind_id (info_of p) n.pending m.distinct;
          keyed = All-put IsKeyed p.prebind_id (info_of p) n.pending refl m.keyed;
        }
]

queue_all-IsMap : (h : Heap) (pairs : List ℕ) (n : Notifier) → IsMap n → IsMap (queue_all h pairs n)
unfolding queue_all
queue_all-IsMap h [] n m = m
queue_all-IsMap h (a ∷ pairs) n m =
    queue_all-IsMap h pairs (queue_hot_pair_notify (h a) n) (queue_hot_pair_notify-IsMap (h a) n m)

get-queue_hot_pair_notify :
    (key : Bytes) (p : Pair) (n : Notifier)
    → is_empty key ≡ false
    → get key (queue_hot_pair_notify p n).pending
      ≡ (if bytes_eq p.prebind_id key then some (info_of p) else get key n.pending)
unfolding queue_hot_pair_notify
get-queue_hot_pair_notify key p n set = elim (Bool-cases (is_empty p.prebind_id)) [
  | inl unset ↦
      rw (queue_hot_pair_notify, unset)
        (ground (arith, set, unset, bytes_eq_iff p.prebind_id key, ap is_empty))
  | inr other ↦ rw (queue_hot_pair_notify, other) (get-put p.prebind_id key (info_of p) n.pending)
]

-- Ready pairs of the same key tell the same channels.
abbrev pub Agrees : HotPairInfo → Pair → Type 0
Agrees e p = bytes_eq p.prebind_id e.key ≡ true → is_ready p.state ≡ true → info_of p ≡ e

get-queue_all :
    (e : HotPairInfo) (h : Heap) (pairs : List ℕ) (n : Notifier)
    → is_empty e.key ≡ false
    → All (λ a. Agrees e (h a)) pairs
    → ((a : ℕ) × Has a pairs × (is_ready (h a).state ≡ true) × (info_of (h a) ≡ e))
      ⊎ (get e.key n.pending ≡ some e)
    → get e.key (queue_all h (keep (λ a. is_ready (h a).state) pairs) n).pending ≡ some e
unfolding queue_all
get-queue_all e h [] n set all (inl (a, m, fit, same)) = absurd (ground arith)
get-queue_all e h [] n set all (inr known) = known
get-queue_all e h (b ∷ pairs) n set all why = elim (Bool-cases (is_ready (h b).state)) [
  | inr unfit ↦ rw unfit (
      get-queue_all e h pairs n set all.1 (elim why [
        | inl (a, m, fit, same) ↦ elim (Bool-cases (b == a)) [
          | inl hit ↦
              absurd
                (ground (arith, hit, unfit, fit, ==_iff b a, ap (λ (x : ℕ). is_ready (h x).state)))
          | inr miss ↦ inl (a, ground arith, fit, same)
        ]
        | inr known ↦ inr known
      ]))
  | inl fit_b ↦ rw fit_b (
      get-queue_all e h pairs (queue_hot_pair_notify (h b) n) set all.1
        (elim (Bool-cases (bytes_eq (h b).prebind_id e.key)) [
          | inl hit ↦
              inr (get-queue_hot_pair_notify e.key (h b) n set ∙ rw hit (ap some (all.0 hit fit_b)))
          | inr miss ↦ elim why [
            | inl (a, m, fit, same) ↦ elim (Bool-cases (b == a)) [
              | inl hit ↦
                  let path : b ≡ a = (==_iff b a).0 hit in
                  let key : (h b).prebind_id ≡ e.key =
                    ap (λ x. (h x).prebind_id) path ∙ ap (λ (i : HotPairInfo). i.key) same in
                  absurd (ground (arith, bytes_eq_iff (h b).prebind_id e.key, key))
              | inr other ↦ inl (a, ground arith, fit, same)
            ]
            | inr known ↦ inr (get-queue_hot_pair_notify e.key (h b) n set ∙ rw miss known)
          ]
        ]))
]

find_ready_some :
    (key : Bytes) (h : Heap) (pairs : List ℕ) (a : ℕ)
    → Has a pairs
    → is_ready (h a).state ≡ true
    → bytes_eq (h a).prebind_id key ≡ true
    → is_some (find_ready key h pairs) ≡ true
unfolding find_ready
find_ready_some key h [] a m fit same = absurd (ground arith)
find_ready_some key h (b ∷ pairs) a m fit same =
    elim (Bool-cases (bytes_eq (h b).prebind_id key && is_ready (h b).state)) [
      | inl hit ↦ rw (find_ready, hit) refl
      | inr miss ↦
          rw (find_ready, miss)
            (elim (Bool-cases (b == a)) [
              | inl at ↦
                  let path : b ≡ a = (==_iff b a).0 at in absurd (cc (rw (path, same, fit) at miss))
              | inr other ↦ find_ready_some key h pairs a (ground arith) fit same
            ])
    ]

told-Fresh :
    (key : Bytes) (m : Pending)
    → All IsKeyed m
    → Fresh key m
    → told key (sent (map (λ (kv : Bytes × HotPairInfo). kv.1) m)) ≡ none
unfolding told sent
told-Fresh key [] keyed f = refl
told-Fresh key ((k, e) ∷ m) keyed f =
    ground (arith, told-Fresh key m keyed.1 f.1, keyed.0, f.0, ap (λ x. bytes_eq x key) keyed.0)

sent-cons :
    (e : HotPairInfo) (es : List HotPairInfo)
    → 0 < length e.key
    → length e.key ≤ 255
    → sent (e ∷ es) ≡ wire_info e ∷ sent es
unfolding sent
sent-cons e es lo hi = ground arith

told_here :
    (e : HotPairInfo) (rest : List HotPairInfo)
    → told e.key rest ≡ none
    → is_unusable (wire_info e) ≡ false
    → told e.key (wire_info e ∷ rest) ≡ some (wire_info e)
unfolding told
told_here e rest later fit = rw (later, fit, bytes_eq_refl e.key) refl

told_later :
    (key : Bytes) (i : HotPairInfo) (es : List HotPairInfo) (r : HotPairInfo)
    → told key (sent es) ≡ some r
    → told key (sent (i ∷ es)) ≡ some r
unfolding told sent
told_later key i es r later = elim (Bool-cases (length i.key == 0 || ltb 255 (length i.key))) [
  | inl skipped ↦ rw (skipped, later) refl
  | inr kept ↦ rw (kept, later) refl
]

-- The record of a key in the queue of notifications is the last one that the server reads for it.
pub told-get :
    (e : HotPairInfo) (m : Pending)
    → All IsKeyed m
    → Distinct m
    → get e.key m ≡ some e
    → is_unusable (wire_info e) ≡ false
    → length e.key ≤ 255
    → told e.key (sent (map (λ (kv : Bytes × HotPairInfo). kv.1) m)) ≡ some (wire_info e)
unfolding get
told-get e [] keyed d found fit short = absurd (cc found)
told-get e ((k, i) ∷ m) keyed d found fit short = elim (Bool-cases (bytes_eq k e.key)) [
  | inl hit ↦
      let path : i ≡ e = some-injective i e (rw hit at found) in
      let key : k ≡ e.key = (bytes_eq_iff k e.key).0 hit in
      let rest : List HotPairInfo = map (λ (kv : Bytes × HotPairInfo). kv.1) m in
      ap (λ x. told e.key (sent (x ∷ rest))) path
      ∙ ap (told e.key) (sent-cons e rest (ground arith) short)
      ∙ told_here e (sent rest) (told-Fresh e.key m keyed.1 (subst (λ x. Fresh x m) key d.0)) fit
  | inr miss ↦
      told_later e.key i (map (λ (kv : Bytes × HotPairInfo). kv.1) m) (wire_info e)
        (told-get e m keyed.1 d.1 (rw miss at found) fit short)
]

-- What the queue of notifications holds for a Ready pair after a heartbeat and the filter.
pub filtered_heartbeat :
    (w : Warmer) (n : Notifier) (a : ℕ)
    → IsMap n
    → Has a w.pairs
    → is_ready (w.heap a).state ≡ true
    → is_empty (w.heap a).prebind_id ≡ false
    → All (λ b. Agrees (info_of (w.heap a)) (w.heap b)) w.pairs
    → let v = filter_pending w (heartbeat_hot_pair_notify w n) in
      IsMap v × (get (w.heap a).prebind_id v.pending ≡ some (info_of (w.heap a)))
unfolding heartbeat_hot_pair_notify filter_pending
filtered_heartbeat w n a m has fit set agree =
    let alive : Bytes × HotPairInfo → Bool = λ kv. is_some (find_ready kv.0 w.heap w.pairs) in
    let queued : List ℕ = keep (λ b. is_ready (w.heap b).state) w.pairs in
    let q : Notifier = queue_all w.heap queued n in
    let qm : IsMap q = queue_all-IsMap w.heap queued n m in
    let e : HotPairInfo = info_of (w.heap a) in
    (
      record {
        distinct = keep-Distinct alive q.pending qm.distinct;
        keyed = All-keep IsKeyed alive q.pending qm.keyed;
      },
      get-keep alive e.key q.pending qm.distinct
          ∙ ap (only (λ v. alive (e.key, v)))
              (get-queue_all e w.heap w.pairs n set agree (inl (a, has, fit, refl)))
          ∙ rw (find_ready_some e.key w.heap w.pairs a has fit (bytes_eq_refl e.key)) refl,
    )

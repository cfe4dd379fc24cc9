-- ===== src/Protocol/ConnId.antt =====
-- protocol/protocol.go: the id of a dial over a warmed pair, HotPairConnID and SplitHotPairConnID;
-- protocol/errors.go: ShortID.
use native.Mathlib.Numerals.{add-one}
use xtunnel.Base.{
  ℕ, zero, suc, ◌+◌, ◌-◌, ◌≤◌, ◌<◌, ◌≡◌, ◌≢◌, refl, sym, ap, ◌∙◌, true, false, ◌&&◌, ◌||◌, Option,
  none, some, [], ◌∷◌, ◌++◌, arith, ◌==◌, leb, if◌then◌else◌, length, take, drop, Bytes, All, codes,
  has_prefix, index_byte, has_prefix→eq, length-take, length-drop, take-append, length-append,
  Option-cases, inl, inr, Bool-cases,
}

abbrev pub hot_pair_key_prefix : Bytes
hot_pair_key_prefix = codes "prebind-"

abbrev pub hot_pair_conn_id_sep : ℕ
hot_pair_conn_id_sep = b'.'

unfoldable pub hot_pair_conn_id : Bytes → Bytes → Bytes
hot_pair_conn_id key unique_suffix =
    if length key == 0 || length unique_suffix == 0
    then []
    else key ++ (hot_pair_conn_id_sep ∷ unique_suffix)

-- The id cut at a separator, where the front is a pair's key.
unfoldable pub split_at : Bytes → ℕ → Option (Bytes × Bytes)
split_at conn_id idx =
    if idx == 0 || idx == length conn_id - 1
    then none
    else if has_prefix (take idx conn_id) hot_pair_key_prefix
    then some (take idx conn_id, drop (idx + 1) conn_id)
    else none

-- `none` is `ok == false`.
unfoldable pub split_hot_pair_conn_id : Bytes → Option (Bytes × Bytes)
split_hot_pair_conn_id conn_id = elim (index_byte conn_id hot_pair_conn_id_sep) [
  | none ↦ none
  | some idx ↦ split_at conn_id idx
]

unfoldable pub short_id : Bytes → Bytes
short_id id =
    if has_prefix id hot_pair_key_prefix && leb 16 (length id)
    then take 16 id
    else if leb 8 (length id)
    then take 8 id
    else id

-- No separator in the text.
abbrev pub NoSep : Bytes → Type 0
NoSep = All (λ c. (c == hot_pair_conn_id_sep) ≡ false)

index_byte-append :
    (key rest : Bytes)
    → NoSep key
    → index_byte (key ++ (hot_pair_conn_id_sep ∷ rest)) hot_pair_conn_id_sep ≡ some (length key)
unfolding index_byte
index_byte-append [] rest h = refl
index_byte-append (x ∷ key) rest h = rw (h.0, index_byte-append key rest h.1)

index_byte-some :
    (s : Bytes) (i : ℕ)
    → index_byte s hot_pair_conn_id_sep ≡ some i
    → NoSep (take i s) × (s ≡ take i s ++ (hot_pair_conn_id_sep ∷ drop (suc i) s))
unfolding index_byte
index_byte-some [] i e = cc
index_byte-some (x ∷ s) zero e =
    let hit : x ≡ hot_pair_conn_id_sep = ground arith in (tt, ap (λ (c : ℕ). c ∷ s) hit)
index_byte-some (x ∷ s) (suc i) e =
    let miss : x == hot_pair_conn_id_sep ≡ false = ground arith in
    let later : index_byte s hot_pair_conn_id_sep ≡ some i = ground arith in
    let rest = index_byte-some s i later in ((miss, rest.0), ap (◌∷◌ x) rest.1)

prefixed-length : (key : Bytes) → has_prefix key hot_pair_key_prefix ≡ true → 8 ≤ length key
prefixed-length key h = omega (
  arith,
  ap length (has_prefix→eq key hot_pair_key_prefix h),
  length-append hot_pair_key_prefix (drop 8 key),
)

drop-after : (key suffix : Bytes) (c : ℕ) → drop (length key + 1) (key ++ (c ∷ suffix)) ≡ suffix
drop-after key suffix c = rw (add-one, drop_past key)
  where
    drop_past : (xs : Bytes) → drop (suc (length xs)) (xs ++ (c ∷ suffix)) ≡ suffix
    drop_past [] = refl
    drop_past (x ∷ xs) = drop_past xs

split_at_joined :
    (key suffix : Bytes)
    → has_prefix key hot_pair_key_prefix ≡ true
    → 0 < length suffix
    → split_at (key ++ (hot_pair_conn_id_sep ∷ suffix)) (length key) ≡ some (key, suffix)
unfolding split_at
split_at_joined key suffix prefixed nonempty =
    let long = prefixed-length key prefixed in
    rw (take-append key (hot_pair_conn_id_sep ∷ suffix), drop-after, prefixed)
      (ground (arith, length-append key (hot_pair_conn_id_sep ∷ suffix)))

-- The id of a dial is split into the key and the suffix that made it, for every key of a warmed pair.
pub split-hot_pair_conn_id :
    (key suffix : Bytes)
    → NoSep key
    → has_prefix key hot_pair_key_prefix ≡ true
    → 0 < length suffix
    → split_hot_pair_conn_id (hot_pair_conn_id key suffix) ≡ some (key, suffix)
unfolding split_hot_pair_conn_id hot_pair_conn_id
split-hot_pair_conn_id key suffix clean prefixed nonempty =
    let long = prefixed-length key prefixed in
    let joined : hot_pair_conn_id key suffix ≡ key ++ (hot_pair_conn_id_sep ∷ suffix) =
      ground arith in
    ap split_hot_pair_conn_id joined
    ∙ rw (index_byte-append key suffix clean, split_hot_pair_conn_id)
        (split_at_joined key suffix prefixed nonempty)

split_at_sound :
    (conn_id key suffix : Bytes) (idx : ℕ)
    → split_at conn_id idx ≡ some (key, suffix)
    → (idx ≢ 0)
      × (idx ≢ length conn_id - 1)
      × (key ≡ take idx conn_id)
      × (suffix ≡ drop (idx + 1) conn_id)
      × (has_prefix (take idx conn_id) hot_pair_key_prefix ≡ true)
unfolding split_at
split_at_sound conn_id key suffix idx e = ground arith

-- An id that is split is the id of a dial: a pair's key, with no separator in it, and a suffix.
pub split_hot_pair_conn_id_sound :
    (conn_id key suffix : Bytes)
    → split_hot_pair_conn_id conn_id ≡ some (key, suffix)
    → (hot_pair_conn_id key suffix ≡ conn_id)
      × NoSep key
      × (has_prefix key hot_pair_key_prefix ≡ true)
      × (0 < length suffix)
unfolding split_hot_pair_conn_id
split_hot_pair_conn_id_sound conn_id key suffix e =
    elim (Option-cases (index_byte conn_id hot_pair_conn_id_sep)) [
      | inl missing ↦ absurd (cc (rw (missing, split_hot_pair_conn_id) at e))
      | inr (idx, found) ↦
          let at_idx : split_at conn_id idx ≡ some (key, suffix) =
            rw (found, split_hot_pair_conn_id) at e in
          let (some_key, not_last, k, s, prefixed) = split_at_sound conn_id key suffix idx at_idx in
          let cut = index_byte-some conn_id idx found in
          let long = prefixed-length (take idx conn_id) prefixed in
          let left : 0 < length (drop (suc idx) conn_id) = omega (
            arith,
            ap length cut.1,
            length-drop (suc idx) conn_id,
            length-append (take idx conn_id) (hot_pair_conn_id_sep ∷ drop (suc idx) conn_id),
            length-take idx conn_id,
          ) in
          rw (k, s, add-one)
            (
              joined_id (take idx conn_id) (drop (suc idx) conn_id) (omega arith) left ∙ sym cut.1,
              cut.0,
              prefixed,
              left,
            )
    ]
  where
    joined_id :
        (xs ys : Bytes)
        → 0 < length xs
        → 0 < length ys
        → hot_pair_conn_id xs ys ≡ xs ++ (hot_pair_conn_id_sep ∷ ys)
    joined_id xs ys hx hy = unfold hot_pair_conn_id in ground arith

take_front :
    (n : ℕ) (id : Bytes)
    → (id ≡ take n id ++ drop (length (take n id)) id) × (length (take n id) ≤ n)
take_front zero id = (refl, omega arith)
take_front (suc n) [] = (refl, omega arith)
take_front (suc n) (x ∷ id) =
    let rest = take_front n id in (ap (◌∷◌ x) rest.0, omega (arith, rest.1))

whole_front : (id : Bytes) → id ≡ id ++ drop (length id) id
whole_front [] = refl
whole_front (x ∷ id) = ap (◌∷◌ x) (whole_front id)

-- A short id is the front of the id, of 16 bytes at most.
pub short_id-IsFront :
    (id : Bytes)
    → (id ≡ short_id id ++ drop (length (short_id id)) id) × (length (short_id id) ≤ 16)
unfolding short_id
short_id-IsFront id = elim (Bool-cases (has_prefix id hot_pair_key_prefix && leb 16 (length id))) [
  | inl warmed ↦ rw warmed (take_front 16 id)
  | inr other ↦ elim (Bool-cases (leb 8 (length id))) [
    | inl long ↦ rw (other, long) (let front = take_front 8 id in (front.0, omega (arith, front.1)))
    | inr short ↦ rw (other, short) (whole_front id, ground arith)
  ]
]

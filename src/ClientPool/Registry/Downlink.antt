-- ===== src/ClientPool/Registry/Downlink.antt =====
-- pool.go: the race of the channels for a connection's downlink.
use xtunnel.Base.{
  is_empty, ℕ, ◌+◌, ◌≤◌, ◌<◌, ◌≡◌, ◌≢◌, refl, ap, ◌∙◌, true, false, not, ◌&&◌, Option, none, some,
  List, [], ◌∷◌, ltb, ◌==◌, if◌then◌else◌, All, arith, ◌⊎◌, inl, inr, Bool-cases, ==_iff, ltb→lt,
}
use xtunnel.ClientPool.Registry.{ConnState, PairRef, is_prebind}
use xtunnel.ClientPool.Registry.Selection.{
  Selection, select_entry, over_pair, unpaired, claim_downlink, pair_up, positive,
}

-- The channels on which the connection's frames come in, in this order, and what selectDownlink
-- answers to each.
unfoldable pub race : List ℕ → ConnState → List Selection × ConnState
race [] st = ([], st)
race (ch_id ∷ ch_ids) st =
    let first = select_entry ch_id st in
    let rest = race ch_ids first.1 in (first.0 ∷ rest.0, rest.1)

unfoldable pub wins : List Selection → ℕ
wins [] = 0
wins (s ∷ answers) = (if s.selected then 1 else 0) + wins answers

-- An answer either tells of the downlink that is chosen, or none, or it chooses one where there was
-- none.
abbrev pub IsAnswer : ConnState → Selection × ConnState → Type 0
IsAnswer st r =
    ((r.1 ≡ st) × (r.0.selected ≡ false) × ((r.0.chosen ≡ 0) ⊎ (r.0.chosen ≡ st.downlink)))
    ⊎ ((st.downlink ≡ 0) × (0 < r.1.downlink) × (r.0.selected ≡ true) × (r.0.chosen ≡ r.1.downlink))

claim_downlink-IsAnswer :
    (ch_id : ℕ) (up : Option ℕ) (st : ConnState)
    → 0 < ch_id
    → IsAnswer st (claim_downlink ch_id up st)
claim_downlink-IsAnswer ch_id up st valid = elim (Bool-cases (st.downlink == 0)) [
  | inl free ↦ rw free (inr ((==_iff st.downlink 0).0 free, valid, refl, refl))
  | inr taken ↦ rw taken (inl (refl, refl, inr refl))
]

unpaired-IsAnswer : (ch_id : ℕ) (st : ConnState) → 0 < ch_id → IsAnswer st (unpaired ch_id st)
unpaired-IsAnswer ch_id st valid =
    elim (Bool-cases (
      not (ltb 0 st.downlink)
      && (is_prebind st.target && (ltb 0 st.uplink && ch_id == st.uplink)))) [
        | inl yields ↦ rw yields (inl (refl, refl, inl refl))
        | inr races ↦ rw races (claim_downlink-IsAnswer ch_id (positive st.uplink) st valid)
      ]

over_pair-IsAnswer :
    (ch_id : ℕ) (st : ConnState) (o : Option PairRef)
    → 0 < ch_id
    → IsAnswer st (over_pair ch_id st o)
over_pair-IsAnswer ch_id st none valid = unpaired-IsAnswer ch_id st valid
over_pair-IsAnswer ch_id st (some pair) valid = elim (Bool-cases (ltb 0 pair.downlink_ch_id)) [
  | inl bound ↦ rw bound (
      claim_downlink-IsAnswer pair.downlink_ch_id (pair_up pair st) st
        (ltb→lt 0 pair.downlink_ch_id bound))
  | inr unbound ↦ rw unbound (unpaired-IsAnswer ch_id st valid)
]

pub select_entry-IsAnswer :
    (ch_id : ℕ) (st : ConnState) → 0 < ch_id → IsAnswer st (select_entry ch_id st)
unfolding select_entry
select_entry-IsAnswer ch_id st valid = elim (Bool-cases (is_empty st.target)) [
  | inl nowhere ↦ rw nowhere (inl (refl, refl, inl refl))
  | inr somewhere ↦ rw somewhere (over_pair-IsAnswer ch_id st st.pair valid)
]

abbrev pub IsDecided : ℕ → Selection → Type 0
IsDecided downlink s =
    ((s.selected ≡ true) × (s.chosen ≡ downlink) × (0 < downlink))
    ⊎ ((s.selected ≡ false) × ((s.chosen ≡ 0) ⊎ (s.chosen ≡ downlink)))

-- Once there is a downlink, it stays, and all answers tell of it.
race_settled :
    (ch_ids : List ℕ) (st : ConnState)
    → All (λ ch_id. 0 < ch_id) ch_ids
    → 0 < st.downlink
    → let r = race ch_ids st in
      (r.1.downlink ≡ st.downlink) × (wins r.0 ≡ 0) × All (IsDecided r.1.downlink) r.0
unfolding race wins
race_settled [] st valid chosen = (refl, refl, tt)
race_settled (ch_id ∷ ch_ids) st valid chosen = elim (select_entry-IsAnswer ch_id st valid.0) [
  | inl (same, lost, told) ↦
      let ih = race_settled ch_ids (select_entry ch_id st).1 valid.1 (rw same chosen) in
      let kept = ih.0 ∙ ap (λ c. c.downlink) same in
      (kept, ground (arith, ih.1), (inr (lost, ground (arith, kept)), ih.2))
  | inr (free, more, won, told) ↦ absurd (omega arith)
]

race_told :
    (ch_ids : List ℕ) (st : ConnState)
    → All (λ ch_id. 0 < ch_id) ch_ids
    → (st.downlink ≡ 0) ⊎ ((race ch_ids st).1.downlink ≡ st.downlink)
race_told ch_ids st valid = elim (Bool-cases (ltb 0 st.downlink)) [
  | inl chosen ↦ inr (race_settled ch_ids st valid (ltb→lt 0 st.downlink chosen)).0
  | inr free ↦ inl (ground arith)
]

-- For a connection with any state, at most one of the channels on which its frames come in is told
-- that it has been selected, whatever their order, and every answer with a channel tells of the one
-- that is the downlink at the end. Channel IDs are positive.
pub race_once :
    (ch_ids : List ℕ) (st : ConnState)
    → All (λ ch_id. 0 < ch_id) ch_ids
    → let r = race ch_ids st in (wins r.0 ≤ 1) × All (IsDecided r.1.downlink) r.0
unfolding race wins
race_once [] st valid = (omega arith, tt)
race_once (ch_id ∷ ch_ids) st valid = elim (select_entry-IsAnswer ch_id st valid.0) [
  | inl (same, lost, told) ↦
      let ih = race_once ch_ids (select_entry ch_id st).1 valid.1 in
      let final = race_told ch_ids (select_entry ch_id st).1 valid.1 in
      (ground (arith, ih.0), (inr (lost, ground (arith, final, ap (λ c. c.downlink) same)), ih.1))
  | inr (free, chosen, won, told) ↦
      let ih = race_settled ch_ids (select_entry ch_id st).1 valid.1 chosen in
      (ground (arith, ih.1), (inl (won, ground (arith, ih.0), ground (arith, ih.0)), ih.2))
]

-- A connection that is being prebound, with its uplink noted and no pair bound to it, before and
-- behind a frame on some channel.
abbrev pub IsPrebound : ConnState → Type 0
IsPrebound st =
    (is_prebind st.target ≡ true) × (st.pair ≡ none) × (0 < st.uplink) × (st.downlink ≢ st.uplink)

unpaired-IsPrebound :
    (ch_id : ℕ) (st : ConnState)
    → IsPrebound st
    → IsPrebound (unpaired ch_id st).1 × ((unpaired ch_id st).1.uplink ≡ st.uplink)
unpaired-IsPrebound ch_id st p =
    elim (Bool-cases (
      not (ltb 0 st.downlink)
      && (is_prebind st.target && (ltb 0 st.uplink && ch_id == st.uplink)))) [
        | inl yields ↦ rw yields (p, refl)
        | inr races ↦ rw races (raced (Bool-cases (st.downlink == 0)) races)
      ]
  where
    raced :
        ((st.downlink == 0) ≡ true) ⊎ ((st.downlink == 0) ≡ false)
        → (not (ltb 0 st.downlink)
            && (is_prebind st.target && (ltb 0 st.uplink && ch_id == st.uplink)))
          ≡ false
        → IsPrebound (claim_downlink ch_id (positive st.uplink) st).1
          × ((claim_downlink ch_id (positive st.uplink) st).1.uplink ≡ st.uplink)
    raced (inl free) races =
        rw free ((p.0, p.1, p.2, ground (arith, p.0, p.2, ==_iff ch_id st.uplink)), refl)
    raced (inr taken) races = rw taken (p, refl)

over_pair-IsPrebound :
    (ch_id : ℕ) (st : ConnState) (o : Option PairRef)
    → o ≡ none
    → IsPrebound st
    → IsPrebound (over_pair ch_id st o).1 × ((over_pair ch_id st o).1.uplink ≡ st.uplink)
over_pair-IsPrebound ch_id st none alone p = unpaired-IsPrebound ch_id st p
over_pair-IsPrebound ch_id st (some pair) alone p = cc alone

select_entry-IsPrebound :
    (ch_id : ℕ) (st : ConnState)
    → IsPrebound st
    → IsPrebound (select_entry ch_id st).1 × ((select_entry ch_id st).1.uplink ≡ st.uplink)
unfolding select_entry
select_entry-IsPrebound ch_id st p = elim (Bool-cases (is_empty st.target)) [
  | inl nowhere ↦ rw nowhere (p, refl)
  | inr somewhere ↦ rw somewhere (over_pair-IsPrebound ch_id st st.pair p.1 p)
]

-- A connection that is being prebound never gets its uplink as its downlink, in whatever order its
-- channels race, when the uplink is noted before the race and no pair is bound to the connection.
pub race-IsPrebound :
    (ch_ids : List ℕ) (st : ConnState)
    → IsPrebound st
    → let after = (race ch_ids st).1 in IsPrebound after × (after.uplink ≡ st.uplink)
unfolding race
race-IsPrebound [] st p = (p, refl)
race-IsPrebound (ch_id ∷ ch_ids) st p =
    let first = select_entry-IsPrebound ch_id st p in
    let rest = race-IsPrebound ch_ids (select_entry ch_id st).1 first.0 in
    (rest.0, rest.1 ∙ first.1)

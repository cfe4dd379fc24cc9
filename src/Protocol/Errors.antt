-- ===== src/Protocol/Errors.antt =====
-- protocol/errors.go: ContainsString, FindSubstring and IsNormalCloseError. Of an error value the
-- model keeps what the code asks of it; `errors.Is` and `errors.As` are the fields.
use xtunnel.Base.{
  ℕ, zero, suc, ◌+◌, ◌-◌, ◌≤◌, ◌<◌, ◌≡◌, ap, ◌∙◌, Bool, true, false, ◌&&◌, ◌||◌, Option, none, some,
  [], ◌∷◌, ◌++◌, arith, ◌==◌, leb, if◌then◌else◌, length, take, drop, Bytes, codes, bytes_eq,
  bytes_eq→eq, bytes_eq_refl, take-append-drop, take-append, drop-append, length-append, Bool-cases,
  inl, inr, any,
}
use xtunnel.Base.{◌≢◌, ◌↔◌}
use xtunnel.Protocol.Wire.{slice}

-- The loop at index `i` with `n` rounds left.
unfoldable pub find_from : ℕ → ℕ → Bytes → Bytes → Bool
find_from zero i s substr = false
find_from (suc n) i s substr =
    let later = find_from n (i + 1) s substr in
    if bytes_eq (slice s i (i + length substr)) substr then true else later

-- `for i := 0; i <= len(s)-len(substr); i++`, which makes no round where the difference is negative.
unfoldable pub find_substring : Bytes → Bytes → Bool
find_substring s substr = find_from (length s + 1 - length substr) 0 s substr

unfoldable pub contains_string : Bytes → Bytes → Bool
contains_string s substr = leb (length substr) (length s) && find_substring s substr

-- `close_code` is the code of a websocket.CloseError, `timeout` the answer of a net.Error.
pub record NetError : Type 0 where
  pub is_eof : Bool
  pub is_closed : Bool
  pub close_code : Option ℕ
  pub timeout : Option Bool
  pub text : Bytes

abbrev pub is_quiet_code : Option ℕ → Bool
is_quiet_code none = false
is_quiet_code (some c) = c == 1000 || (c == 1001 || c == 1005)

abbrev pub is_timeout : Option Bool → Bool
is_timeout none = false
is_timeout (some b) = b

-- `none` is the nil error.
unfoldable pub is_normal_close_error : Option NetError → Bool
is_normal_close_error none = false
is_normal_close_error (some e) =
    (e.is_eof || e.is_closed)
    || (is_quiet_code e.close_code
        || (is_timeout e.timeout
            || any (contains_string e.text) (
                codes "tls: bad record MAC"
                ∷ codes "use of closed network connection"
                ∷ codes "connection reset by peer"
                ∷ codes "broken pipe"
                ∷ codes "websocket: close sent"
                ∷ [])))

slice_split : (i k : ℕ) (s : Bytes) → s ≡ take i s ++ (take k (drop i s) ++ drop k (drop i s))
slice_split i k s = rw (take-append-drop k (drop i s), take-append-drop i s)

find_from_sound :
    (n i : ℕ) (s substr : Bytes)
    → find_from n i s substr ≡ true
    → (pre : Bytes) × (post : Bytes) × (s ≡ pre ++ (substr ++ post))
unfolding find_from
find_from_sound zero i s substr e = cc
find_from_sound (suc n) i s substr e =
    elim (Bool-cases (bytes_eq (slice s i (i + length substr)) substr)) [
      | inl hit ↦
          let here = bytes_eq→eq _ substr hit in
          (
            take i s,
            drop (i + length substr - i) (drop i s),
            slice_split i (i + length substr - i) s
                ∙ ap (λ x. take i s ++ (x ++ drop (i + length substr - i) (drop i s))) here,
          )
      | inr miss ↦ find_from_sound n (i + 1) s substr (rw miss at e)
    ]

find_from_complete :
    (n i : ℕ) (pre post substr : Bytes)
    → i ≤ length pre
    → length pre < i + n
    → find_from n i (pre ++ (substr ++ post)) substr ≡ true
unfolding find_from
find_from_complete zero i pre post substr lo hi = absurd (omega arith)
find_from_complete (suc n) i pre post substr lo hi =
    let s = pre ++ (substr ++ post) in
    elim (Bool-cases (bytes_eq (slice s i (i + length substr)) substr)) [
      | inl hit ↦ rw hit
      | inr miss ↦
          rw miss
            (find_from_complete n (i + 1) pre post substr (omega (arith, later miss)) (omega arith))
    ]
  where
    at_pre :
        (j : ℕ)
        → j ≡ length pre
        → bytes_eq (slice (pre ++ (substr ++ post)) j (j + length substr)) substr ≡ true
    at_pre j e =
        let gone : length pre + length substr - length pre ≡ length substr = omega arith in
        rw (e, drop-append pre (substr ++ post), gone, take-append substr post)
          (bytes_eq_refl substr)

    later :
        bytes_eq (slice (pre ++ (substr ++ post)) i (i + length substr)) substr ≡ false
        → i ≢ length pre
    later miss e = cc (at_pre i e)

contains_string_sound :
    (s substr : Bytes)
    → contains_string s substr ≡ true
    → (pre : Bytes) × (post : Bytes) × (s ≡ pre ++ (substr ++ post))
unfolding contains_string find_substring
contains_string_sound s substr e =
    find_from_sound (length s + 1 - length substr) 0 s substr (ground arith)

contains_string_complete :
    (pre substr post : Bytes) → contains_string (pre ++ (substr ++ post)) substr ≡ true
unfolding contains_string find_substring
contains_string_complete pre substr post =
    let whole = length-append pre (substr ++ post) in
    let back = length-append substr post in
    ground (
      arith,
      whole,
      back,
      find_from_complete (length (pre ++ (substr ++ post)) + 1 - length substr) 0 pre post substr
          (omega arith) (omega (arith, whole, back)),
    )

-- A text is found in another exactly when it stands in it somewhere.
pub contains_string_iff :
    (s substr : Bytes)
    → (contains_string s substr ≡ true)
      ↔ ((pre : Bytes) × (post : Bytes) × (s ≡ pre ++ (substr ++ post)))
contains_string_iff s substr = (
  contains_string_sound s substr,
  λ (pre, post, e). rw e (contains_string_complete pre substr post),
)

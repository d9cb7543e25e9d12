-- ===== src/Splitfmt/Grammar.antt =====
-- internal/splitfmt/splitfmt.go: Decode accepts the files of the grammar in the package's comment, and
-- those with a sign before a number.
use pgdesign.Base.{
  ℕ, zero, suc, Text, List, [], ◌∷◌, ◌++◌, true, false, not, Option, none, some, ok, length, take,
  drop, index_byte, index_byte_at, index_byte-split, ltb, ==_iff, atoi, Signed, plus, minus,
  take-append, drop-append, drop-append_cons, length-append, length-take, take-drop, Bool-cases,
  Option-cases, Result-cases, inl, inr, ◌↔◌, ◌≡◌, refl, sym, ap, ◌∙◌, arith,
}
use pgdesign.Splitfmt.Line.{IsLine, Line-read, read-Line}
use pgdesign.Splitfmt.{
  newline, starts_line, take_payload, sized_payload, entry_at, decode_entry, add_statement,
  after_entry, decode_loop, counted, count_at, decode,
}

-- entry = length LF payload LF
abbrev pub IsEntries : Text → List Text → Type 0
IsEntries data_left [] = data_left ≡ []
IsEntries data_left (s ∷ ss) =
    (line : Text) × (rest : Text) × IsLine line (length s)
    × (data_left ≡ line ++ (newline ∷ (s ++ (newline ∷ rest))))
    × IsEntries rest ss

-- file = count LF { entry }
abbrev pub IsFile : Text → List Text → Type 0
IsFile file ss =
    (line : Text) × (rest : Text) × IsLine line (length ss)
    × (file ≡ line ++ (newline ∷ rest))
    × IsEntries rest ss

take_payload_of :
    (i : ℕ) (s rest : Text) → take_payload i (length s) (s ++ (newline ∷ rest)) ≡ ok (s, rest)
unfolding take_payload
take_payload_of i s rest =
    let long : ltb (length (s ++ (newline ∷ rest))) (length s) ≡ false =
      ground (arith, length-append s (newline ∷ rest)) in
    rw (long, drop-append s (newline ∷ rest), take-append s (newline ∷ rest)) refl

sized_payload_of :
    (i n : ℕ) (rest : Text) → sized_payload i (some (plus n)) rest ≡ take_payload i n rest
unfolding sized_payload
sized_payload_of i n rest = refl

decode_entry_of :
    (i : ℕ) (line s rest : Text)
    → IsLine line (length s)
    → decode_entry i (line ++ (newline ∷ (s ++ (newline ∷ rest)))) ≡ ok (s, rest)
unfolding decode_entry entry_at
decode_entry_of i line s rest number_line =
    let (clean, number) = Line-read line (length s) number_line in
    let after = s ++ (newline ∷ rest) in
    rw
      (
        index_byte_at newline line after clean,
        take-append line (newline ∷ after),
        number,
        drop-append_cons line newline after,
        sized_payload_of i (length s) after,
      )
      (take_payload_of i s rest)

decode_loop_of :
    (count i : ℕ) (file : Text) (ss : List Text)
    → IsEntries file ss
    → decode_loop (length ss) count i file ≡ ok ss
unfolding decode_loop after_entry add_statement
decode_loop_of count i file [] h = rw h refl
decode_loop_of count i file (s ∷ ss) (line, rest, number, e, h) =
    rw (e, decode_entry_of i line s rest number, decode_loop_of count (suc i) rest ss h) refl

counted_of : (n : ℕ) (rest : Text) → counted (some (plus n)) rest ≡ decode_loop n n 0 rest
unfolding counted
counted_of n rest = refl

pub decode-IsFile : (file : Text) (ss : List Text) → IsFile file ss → decode file ≡ ok ss
unfolding decode count_at
decode-IsFile file ss (line, rest, number_line, e, h) =
    let (clean, number) = Line-read line (length ss) number_line in
    rw
      (
        e,
        index_byte_at newline line rest clean,
        take-append line (newline ∷ rest),
        number,
        drop-append_cons line newline rest,
        counted_of (length ss) rest,
      )
      (decode_loop_of (length ss) 0 rest ss h)

line_start : (t after : Text) → starts_line t ≡ true → drop 1 t ≡ after → t ≡ newline ∷ after
line_start [] after h e = cc
line_start (c ∷ t) after h e = let at : c ≡ newline = (==_iff c newline).0 h in rw (at, e) refl

-- A payload that was taken, with the separator behind it.
take_payload_ok :
    (i n : ℕ) (rest s after : Text)
    → take_payload i n rest ≡ ok (s, after)
    → (length s ≡ n) × (rest ≡ s ++ (newline ∷ after))
unfolding take_payload
take_payload_ok i n rest s after h = elim (Bool-cases (ltb (length rest) n)) [
  | inl short ↦ cc (rw short at h)
  | inr long ↦ elim (Bool-cases (not (starts_line (drop n rest)))) [
    | inl none_there ↦ cc (rw (long, none_there) at h)
    | inr there ↦
        let both : ok (take n rest, drop 1 (drop n rest)) ≡ ok (s, after) = rw (long, there) at h in
        let payload : take n rest ≡ s = cc in
        let left : drop 1 (drop n rest) ≡ after = cc in
        (
          ap length (sym payload) ∙ length-take n rest (ground arith),
          sym (take-drop n rest)
              ∙ (ap (λ l. l ++ drop n rest) payload
                  ∙ ap (λ l. s ++ l) (line_start (drop n rest) after (ground arith) left)),
        )
  ]
]

sized_payload_ok :
    (i : ℕ) (number : Option Signed) (rest s after : Text)
    → sized_payload i number rest ≡ ok (s, after)
    → (number ≡ some (plus (length s))) × (rest ≡ s ++ (newline ∷ after))
unfolding sized_payload
sized_payload_ok i none rest s after h = cc
sized_payload_ok i (some (minus n)) rest s after h = cc
sized_payload_ok i (some (plus n)) rest s after h =
    let (len, e) = take_payload_ok i n rest s after h in (ap (λ k. some (plus k)) (sym len), e)

decode_entry_ok :
    (i : ℕ) (file s rest : Text)
    → decode_entry i file ≡ ok (s, rest)
    → (line : Text) × IsLine line (length s) × (file ≡ line ++ (newline ∷ (s ++ (newline ∷ rest))))
unfolding decode_entry entry_at
decode_entry_ok i file s rest h = elim (Option-cases (index_byte file newline)) [
  | inl e ↦ cc (rw e at h)
  | inr (idx, e) ↦
      let (split, clean) = index_byte-split newline file idx e in
      let (number, payload) =
        sized_payload_ok i (atoi (take idx file)) (drop (suc idx) file) s rest (rw e at h) in
      (
        take idx file,
        read-Line (take idx file) (length s) number,
        split ∙ ap (λ l. take idx file ++ (newline ∷ l)) payload,
      )
]

decode_loop_ok :
    (n count i : ℕ) (file : Text) (ss : List Text)
    → decode_loop n count i file ≡ ok ss
    → (n ≡ length ss) × IsEntries file ss
unfolding decode_loop after_entry add_statement
decode_loop_ok zero count i [] ss h = let none_left : ss ≡ [] = cc in rw none_left (refl, refl)
decode_loop_ok zero count i (c ∷ rest) ss h = cc
decode_loop_ok (suc n) count i file ss h = elim (Result-cases (decode_entry i file)) [
  | inr (e, f) ↦ cc (rw f at h)
  | inl ((s, rest), f) ↦ elim (Result-cases (decode_loop n count (suc i) rest)) [
    | inr (e, g) ↦ cc (rw (f, g) at h)
    | inl (later, g) ↦
        let both : ok (s ∷ later) ≡ ok ss = rw (f, g) at h in
        let same : ss ≡ s ∷ later = cc in
        let (len, entries) = decode_loop_ok n count (suc i) rest later g in
        let (line, number, split) = decode_entry_ok i file s rest f in
        rw same (ap suc len, (line, rest, number, split, entries))
  ]
]

counted_ok :
    (number : Option Signed) (rest : Text) (ss : List Text)
    → counted number rest ≡ ok ss
    → (number ≡ some (plus (length ss))) × IsEntries rest ss
unfolding counted
counted_ok none rest ss h = cc
counted_ok (some (minus n)) rest ss h = cc
counted_ok (some (plus n)) rest ss h =
    let (len, entries) = decode_loop_ok n n 0 rest ss h in (ap (λ k. some (plus k)) len, entries)

-- Decode succeeds with the given statements exactly on the files that the grammar gives for them:
-- a count line, then for each statement a line with its length, its bytes and a newline, and
-- nothing more. A number is one decimal digit or more, with a value of at most 2^63 - 1, after an
-- optional plus sign, or after a minus sign where it is zero.
pub decode_correct : (file : Text) (ss : List Text) → (decode file ≡ ok ss) ↔ IsFile file ss
unfolding decode count_at
decode_correct file ss = (
  λ h. elim (Option-cases (index_byte file newline)) [
    | inl e ↦ cc (rw e at h)
    | inr (idx, e) ↦
        let (split, clean) = index_byte-split newline file idx e in
        let (number, entries) =
          counted_ok (atoi (take idx file)) (drop (suc idx) file) ss (rw e at h) in
        (
          take idx file,
          drop (suc idx) file,
          read-Line (take idx file) (length ss) number,
          split,
          entries,
        )
  ],
  decode-IsFile file ss,
)

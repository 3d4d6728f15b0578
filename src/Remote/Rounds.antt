-- ===== src/Remote/Rounds.antt =====
-- The loops of `read`: how long a line can get, and that each round takes bytes from the stream.
use stanchion.Prelude.{
  ℕ, zero, suc, ◌+◌, ◌≤◌, ◌<◌, ◌≡◌, refl, sym, ap, ◌∙◌, false, ◌⊎◌, inl, inr, Option, none, some,
  [], ◌∷◌, ◌++◌, arith, ltb, ◌==◌, length, length-append, Outcome, ok, err, Bool-cases,
  Option-cases, Outcome-cases,
}
use stanchion.Remote.{
  Bytes, FrameError, Incoming, Codec, over_limit, max_frame_bytes, Reader, unread, cut_line,
  saturating_add, read_limited, size, rounds, read, parse_line,
}
use stanchion.Remote.Chunks.{read_limited-some, read_limited-none, read_limited-over}

size-unread :
    (bytes : Bytes) (reader : Reader) → size (unread bytes reader) ≡ length bytes + size reader
unfolding size
size-unread [] reader = omega arith
size-unread (byte ∷ bytes) reader = refl

cut_line-length :
    (bytes : Bytes) {chunk left : Bytes}
    → cut_line bytes ≡ some (chunk, left)
    → (1 ≤ length chunk) × (length chunk + length left ≡ length bytes)
unfolding cut_line
cut_line-length [] h = absurd (ground arith)
cut_line-length (b ∷ bytes) {chunk} {left} h = elim (Bool-cases (b == b'\n')) [
  | inl e ↦
      let cut : ◌≡◌ {A = Option (Bytes × Bytes)} (some (b ∷ [], bytes)) (some (chunk, left)) =
        ground arith in
      let one : chunk ≡ b ∷ [] = cc in
      let two : left ≡ bytes = cc in
      (omega (arith, ap length one), omega (arith, ap length one, ap length two))
  | inr e ↦ elim (Option-cases (cut_line bytes)) [
    | inl f ↦ absurd (ground arith)
    | inr ((a, l), f) ↦
        let cut : ◌≡◌ {A = Option (Bytes × Bytes)} (some (b ∷ a, l)) (some (chunk, left)) =
          ground arith in
        let one : chunk ≡ b ∷ a = cc in
        let two : left ≡ l = cc in
        (
          omega (arith, ap length one),
          omega (arith, ap length one, ap length two, (cut_line-length bytes f).1),
        )
  ]
]

abbrev ReadResult : Type 0
ReadResult = Outcome FrameError (ℕ × Bytes) × Reader

answer_parts :
    {n m : ℕ} {a b : Bytes} {r s : Reader}
    → ◌≡◌ {A = ReadResult} (ok (n, a), r) (ok (m, b), s)
    → (n ≡ m) × (a ≡ b) × (r ≡ s)
answer_parts e = (cc, cc, cc)

over :
    {n : ℕ} {line : Bytes} {r s : Reader}
    → ¬ (◌≡◌ {A = ReadResult} (err over_limit, r) (ok (n, line), s))
over e = cc

-- A read that ends well takes a byte or more, or its count has stayed the same.
read_limited-size :
    (reader : Reader) (out : Bytes) (total : ℕ) {n : ℕ} {line : Bytes} {left : Reader}
    → read_limited reader out total ≡ (ok (n, line), left)
    → (size left ≤ size reader) × ((n ≡ total) ⊎ (size left < size reader))
unfolding read_limited size
read_limited-size [] out total h =
    let (p, q, r) = answer_parts h in (omega (arith, ap size r), inl (sym p))
read_limited-size (err e ∷ reader) out total h = absurd (ground arith)
read_limited-size (ok [] ∷ reader) out total h =
    let (p, q, r) = answer_parts h in (omega (arith, ap size r), inl (sym p))
read_limited-size (ok (b ∷ bytes) ∷ reader) out total {left = left} h =
    elim (Option-cases (cut_line (b ∷ bytes))) [
      | inr ((chunk, rest), f) ↦
          let (p, q, r) = answer_parts (sym (read_limited-some b bytes reader out total f) ∙ h) in
          let (some_byte, sum) = cut_line-length (b ∷ bytes) f in
          let less : size left < size (ok (b ∷ bytes) ∷ reader) =
            omega (arith, ap size r, size-unread rest reader) in
          (omega arith, inr less)
      | inl f ↦
          let more = saturating_add total (length (b ∷ bytes)) in
          elim (Bool-cases (ltb max_frame_bytes more)) [
            | inl g ↦ absurd (over (sym (read_limited-over b bytes reader out total f g) ∙ h))
            | inr g ↦
                let (k, _) =
                  read_limited-size reader (out ++ b ∷ bytes) more
                    (sym (read_limited-none b bytes reader out total f g) ∙ h) in
                let less : size left < size (ok (b ∷ bytes) ∷ reader) = omega arith in
                (omega arith, inr less)
          ]
    ]

module _ {J E : Type 0} (codec : Codec J E) where
  abbrev Result : Type 0
  Result = Outcome FrameError (Option (Incoming J E)) × Reader

  rounds-total :
      (fuel : ℕ) (reader : Reader)
      → size reader < fuel
      → (result : Result) × (rounds codec fuel reader ≡ some result)
  unfolding rounds
  rounds-total zero reader h = absurd (omega arith)
  rounds-total (suc fuel) reader h = elim (Outcome-cases (read_limited reader [] 0).0) [
    | inr (e, f) ↦ ((err e, (read_limited reader [] 0).1), rw (f, rounds) refl)
    | inl ((zero, line), f) ↦ ((ok none, (read_limited reader [] 0).1), rw (f, rounds) refl)
    | inl ((suc n, line), f) ↦ elim (Outcome-cases (parse_line codec line)) [
      | inr (e, g) ↦ ((err e, (read_limited reader [] 0).1), rw (f, g, rounds) refl)
      | inl (some message, g) ↦
          ((ok (some message), (read_limited reader [] 0).1), rw (f, g, rounds) refl)
      | inl (none, g) ↦
          let left = (read_limited reader [] 0).1 in
          let whole : read_limited reader [] 0 ≡ (ok (suc n, line), left) =
            ap (λ (x : Outcome FrameError (ℕ × Bytes)). (x, left)) f in
          let fewer : size left < fuel = elim (read_limited-size reader [] 0 whole).1 [
            | inl e ↦ absurd (omega arith)
            | inr less ↦ omega arith
          ] in
          let (result, last) = rounds-total fuel left fewer in (result, rw (f, g, rounds) last)
    ]
  ]

  -- Reading a message comes to an end on every stream, whatever its buffers and errors are: with a
  -- message, with the end of the stream, or with an error.
  pub read-total : (reader : Reader) → (result : Result) × (read codec reader ≡ some result)
  unfolding read
  read-total reader = rounds-total (suc (size reader)) reader (omega arith)

-- No buffer is longer than the reader's capacity.
abbrev pub IsCapped : ℕ → Reader → Type 0
IsCapped capacity [] = Unit {0}
IsCapped capacity (err e ∷ reader) = IsCapped capacity reader
IsCapped capacity (ok bytes ∷ reader) = (length bytes ≤ capacity) × IsCapped capacity reader

limited :
    (total added : ℕ)
    → ltb max_frame_bytes (saturating_add total added) ≡ false
    → (saturating_add total added ≡ total + added) × (total + added ≤ max_frame_bytes)
limited total added h = (ground arith, ground arith)

-- A line that is read, newline included, is at most one buffer longer than the limit.
pub read_limited-length :
    (capacity : ℕ) (reader : Reader) (out : Bytes) (total : ℕ) {n : ℕ} {line : Bytes}
    {left : Reader}
    → IsCapped capacity reader
    → length out ≡ total
    → total ≤ max_frame_bytes
    → read_limited reader out total ≡ (ok (n, line), left)
    → length line ≤ max_frame_bytes + capacity
unfolding read_limited
read_limited-length capacity [] out total c same fits h =
    let (p, q, r) = answer_parts h in omega (arith, ap length q)
read_limited-length capacity (err e ∷ reader) out total c same fits h = absurd (ground arith)
read_limited-length capacity (ok [] ∷ reader) out total c same fits h =
    let (p, q, r) = answer_parts h in omega (arith, ap length q)
read_limited-length capacity (ok (b ∷ bytes) ∷ reader) out total c same fits h =
    elim (Option-cases (cut_line (b ∷ bytes))) [
      | inr ((chunk, rest), f) ↦
          let (p, q, r) = answer_parts (sym (read_limited-some b bytes reader out total f) ∙ h) in
          omega
            (arith, ap length q, length-append out chunk, (cut_line-length (b ∷ bytes) f).1, c.0)
      | inl f ↦
          let more = saturating_add total (length (b ∷ bytes)) in
          elim (Bool-cases (ltb max_frame_bytes more)) [
            | inl g ↦ absurd (over (sym (read_limited-over b bytes reader out total f g) ∙ h))
            | inr g ↦
                let (sum, small) = limited total (length (b ∷ bytes)) g in
                read_limited-length capacity reader (out ++ b ∷ bytes) more c.1
                  (omega (arith, length-append out (b ∷ bytes))) (omega arith)
                  (sym (read_limited-none b bytes reader out total f g) ∙ h)
          ]
    ]

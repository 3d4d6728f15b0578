-- ===== src/Remote/Chunks.antt =====
-- A line of a stream, however the stream is cut into buffers.
use stanchion.Prelude.{
  ℕ, suc, ◌+◌, ◌≤◌, ◌≡◌, refl, sym, ap, ◌∙◌, Bool, true, false, not, inl, inr, Option, none, some,
  [], ◌∷◌, ◌++◌, arith, ltb, ◌==◌, length, length-append, all, all-append, and_parts, ok, err,
  Option-cases,
}
use mathlib.Core.List.{append_assoc}
use stanchion.Remote.{
  Bytes, over_limit, max_frame_bytes, Reader, unread, cut_line, saturating_add, read_limited,
}

-- The bytes that a reader gives before its end or an error.
abbrev pub flat : Reader → Bytes
flat [] = []
flat (err e ∷ reader) = []
flat (ok [] ∷ reader) = []
flat (ok (byte ∷ bytes) ∷ reader) = byte ∷ bytes ++ flat reader

abbrev pub no_newline : Bytes → Bool
no_newline bytes = all (λ byte. not (byte == b'\n')) bytes

pub flat-unread :
    (bytes : Bytes) (reader : Reader) → flat (unread bytes reader) ≡ bytes ++ flat reader
flat-unread [] reader = refl
flat-unread (byte ∷ bytes) reader = refl

uncons : {a b : ℕ} {xs ys : Bytes} → ◌≡◌ {A = Bytes} (a ∷ xs) (b ∷ ys) → (a ≡ b) × (xs ≡ ys)
uncons e = (cc, cc)

-- A buffer with a newline, against the line that the stream begins with.
cut_line-some :
    (bytes more line rest : Bytes) {chunk left : Bytes}
    → cut_line bytes ≡ some (chunk, left)
    → no_newline line ≡ true
    → bytes ++ more ≡ line ++ b'\n' ∷ rest
    → (chunk ≡ line ++ b'\n' ∷ []) × (left ++ more ≡ rest)
unfolding cut_line
cut_line-some [] more line rest h n e = absurd (ground arith)
cut_line-some (b ∷ bytes) more [] rest {chunk} {left} h n e =
    let (head, tail) = uncons e in
    let cut : ◌≡◌ {A = Option (Bytes × Bytes)} (some (b ∷ [], bytes)) (some (chunk, left)) =
      ground arith in
    let one : chunk ≡ b ∷ [] = cc in
    let two : left ≡ bytes = cc in (one ∙ ap (λ x. x ∷ []) head, ap (λ x. x ++ more) two ∙ tail)
cut_line-some (b ∷ bytes) more (c ∷ line) rest {chunk} {left} h n e =
    let (head, tail) = uncons e in
    elim (Option-cases (cut_line bytes)) [
      | inl f ↦ absurd (ground arith)
      | inr ((a, l), f) ↦
          let (p, q) = cut_line-some bytes more line rest f (ground arith) tail in
          let cut : ◌≡◌ {A = Option (Bytes × Bytes)} (some (b ∷ a, l)) (some (chunk, left)) =
            ground arith in
          let one : chunk ≡ b ∷ a = cc in
          let two : left ≡ l = cc in
          (one ∙ (ap (λ x. x ∷ a) head ∙ ap (λ x. c ∷ x) p), ap (λ x. x ++ more) two ∙ q)
    ]

-- A buffer without one.
cut_line-none :
    (bytes more line rest : Bytes)
    → cut_line bytes ≡ none
    → bytes ++ more ≡ line ++ b'\n' ∷ rest
    → (after : Bytes) × (line ≡ bytes ++ after) × (more ≡ after ++ b'\n' ∷ rest)
unfolding cut_line
cut_line-none [] more line rest h e = (line, refl, e)
cut_line-none (b ∷ bytes) more [] rest h e = let (head, tail) = uncons e in absurd (ground arith)
cut_line-none (b ∷ bytes) more (c ∷ line) rest h e =
    let (head, tail) = uncons e in
    let (after, p, q) = cut_line-none bytes more line rest (ground arith) tail in
    (after, ap (λ x. x ∷ line) (sym head) ∙ ap (λ x. b ∷ x) p, q)

not_empty : (line rest : Bytes) → ¬ (◌≡◌ {A = Bytes} [] (line ++ b'\n' ∷ rest))
not_empty [] rest e = absurd (ground arith)
not_empty (b ∷ line) rest e = absurd (ground arith)

saturating_add-fits : (a b : ℕ) → a + b ≤ suc max_frame_bytes → saturating_add a b ≡ a + b
saturating_add-fits a b h = ground arith

module _ (b : ℕ) (bytes : Bytes) (reader : Reader) (out : Bytes) (total : ℕ) where
  -- a buffer that ends the line
  pub read_limited-some :
      {chunk left : Bytes}
      → cut_line (b ∷ bytes) ≡ some (chunk, left)
      → read_limited (ok (b ∷ bytes) ∷ reader) out total
        ≡ (ok (saturating_add total (length chunk), out ++ chunk), unread left reader)
  unfolding read_limited
  read_limited-some f = rw (f, read_limited) refl

  -- a buffer that the line goes on after
  pub read_limited-none :
      cut_line (b ∷ bytes) ≡ none
      → ltb max_frame_bytes (saturating_add total (length (b ∷ bytes))) ≡ false
      → read_limited (ok (b ∷ bytes) ∷ reader) out total
        ≡ read_limited reader (out ++ b ∷ bytes) (saturating_add total (length (b ∷ bytes)))
  unfolding read_limited
  read_limited-none f g = rw (f, g, read_limited) refl

  -- a buffer that takes the line past the limit
  pub read_limited-over :
      cut_line (b ∷ bytes) ≡ none
      → ltb max_frame_bytes (saturating_add total (length (b ∷ bytes))) ≡ true
      → read_limited (ok (b ∷ bytes) ∷ reader) out total ≡ (err over_limit, reader)
  unfolding read_limited
  read_limited-over f g = rw (f, g, read_limited) refl

length-line : (line : Bytes) → length (line ++ b'\n' ∷ []) ≡ suc (length line)
length-line line = omega (arith, length-append line (b'\n' ∷ []))

regroup :
    (out chunk after line : Bytes)
    → line ≡ chunk ++ after
    → (out ++ chunk) ++ (after ++ b'\n' ∷ []) ≡ out ++ (line ++ b'\n' ∷ [])
regroup out chunk after line p =
    append_assoc out chunk (after ++ b'\n' ∷ [])
    ∙ ap (λ l. out ++ l) (sym (append_assoc chunk after (b'\n' ∷ [])))
    ∙ ap (λ (l : Bytes). out ++ (l ++ b'\n' ∷ [])) (sym p)

-- Whatever the buffers are, the line that the stream begins with is read whole, with its length,
-- and what follows it is left.
pub read_limited-line :
    (reader : Reader) (line rest out : Bytes) (total : ℕ)
    → no_newline line ≡ true
    → flat reader ≡ line ++ b'\n' ∷ rest
    → total + length line ≤ max_frame_bytes
    → (left : Reader) × (read_limited reader out total
        ≡ (ok (total + suc (length line), out ++ (line ++ b'\n' ∷ [])), left))
      × (flat left ≡ rest)
read_limited-line [] line rest out total n e fits = absurd (not_empty line rest e)
read_limited-line (err x ∷ reader) line rest out total n e fits = absurd (not_empty line rest e)
read_limited-line (ok [] ∷ reader) line rest out total n e fits = absurd (not_empty line rest e)
read_limited-line (ok (b ∷ bytes) ∷ reader) line rest out total n e fits =
    elim (Option-cases (cut_line (b ∷ bytes))) [
      | inr ((chunk, left), f) ↦
          let (p, q) = cut_line-some (b ∷ bytes) (flat reader) line rest f n e in
          let size : length chunk ≡ suc (length line) = ap length p ∙ length-line line in
          let sum : saturating_add total (length chunk) ≡ total + suc (length line) =
            saturating_add-fits total (length chunk) (omega arith) ∙ ap (λ k. total + k) size in
          (
            unread left reader,
            read_limited-some b bytes reader out total f
                ∙ ap (λ (k : ℕ). (ok (k, out ++ chunk), unread left reader)) sum
                ∙ ap (λ (c : Bytes). (ok (total + suc (length line), out ++ c), unread left reader))
                    p,
            flat-unread left reader ∙ q,
          )
      | inl f ↦
          let (after, p, q) = cut_line-none (b ∷ bytes) (flat reader) line rest f e in
          let more = total + length (b ∷ bytes) in
          let size : length line ≡ length (b ∷ bytes) + length after =
            ap length p ∙ length-append (b ∷ bytes) after in
          let sum : saturating_add total (length (b ∷ bytes)) ≡ more =
            saturating_add-fits total (length (b ∷ bytes)) (omega arith) in
          let clean : no_newline after ≡ true =
            (and_parts (no_newline (b ∷ bytes)) (no_newline after) (
              sym (all-append (λ byte. not (byte == b'\n')) (b ∷ bytes) after)
              ∙ (ap no_newline (sym p) ∙ n))).1 in
          let (left, r, t) =
            read_limited-line reader after rest (out ++ b ∷ bytes) more clean q (omega arith) in
          let counted : more + suc (length after) ≡ total + suc (length line) = omega arith in
          (
            left,
            read_limited-none b bytes reader out total f (ground arith)
                ∙ ap (read_limited reader (out ++ b ∷ bytes)) sum
                ∙ r
                ∙ ap (λ (k : ℕ). (ok (k, (out ++ b ∷ bytes) ++ (after ++ b'\n' ∷ [])), left))
                    counted
                ∙ ap (λ (c : Bytes). (ok (total + suc (length line), c), left))
                    (regroup out (b ∷ bytes) after line p),
            t,
          )
    ]

-- ===== src/Signature/Preimage.antt =====
-- The signed bytes of a directory determine its files: no two directories share a preimage.
use stanchion.Prelude.{
  ℕ, ◌≡◌, ◌≢◌, refl, sym, ◌∙◌, Bool, true, ◌&&◌, [], ◌∷◌, ◌++◌, arith, all, length, ltb, Text, Map,
}
use mathlib.Core.List.{append_assoc}
use stanchion.Signature.{Bytes, utf8_char, utf8, preimage_of}

-- a Unicode scalar value other than NUL, which no path holds
abbrev is_path_char : ℕ → Bool
is_path_char c = ltb 0 c && ltb c 0x110000

-- Every path is free of NUL, and every hash has the 32 bytes of SHA-256.
abbrev pub IsFileMap : Map Bytes → Type 0
IsFileMap [] = Unit {0}
IsFileMap ((relative, hash) ∷ files) =
    (all is_path_char relative ≡ true) × (length hash ≡ 32) × IsFileMap files

utf8_char-split :
    (c d : ℕ) (r s : Bytes)
    → is_path_char c ≡ true
    → is_path_char d ≡ true
    → utf8_char c ++ r ≡ utf8_char d ++ s
    → (c ≡ d) × (r ≡ s)
unfolding utf8_char
utf8_char-split c d r s p q h = (ground arith, ground arith)

utf8_char-ne-zero : (c : ℕ) (r s : Bytes) → is_path_char c ≡ true → utf8_char c ++ r ≢ 0 ∷ s
unfolding utf8_char
utf8_char-ne-zero c r s p h = ground arith

-- A path ends at its first NUL.
utf8-split :
    (a b : Text) (r s : Bytes)
    → all is_path_char a ≡ true
    → all is_path_char b ≡ true
    → utf8 a ++ (0 ∷ r) ≡ utf8 b ++ (0 ∷ s)
    → (a ≡ b) × (r ≡ s)
unfolding utf8
utf8-split [] [] r s p q h = (refl, ground arith)
utf8-split [] (d ∷ b) r s p q h = absurd (
    utf8_char-ne-zero d (utf8 b ++ (0 ∷ s)) r (ground arith)
      (sym (h ∙ append_assoc (utf8_char d) (utf8 b) (0 ∷ s))))
utf8-split (c ∷ a) [] r s p q h = absurd (
    utf8_char-ne-zero c (utf8 a ++ (0 ∷ r)) s (ground arith)
      (sym (append_assoc (utf8_char c) (utf8 a) (0 ∷ r)) ∙ h))
utf8-split (c ∷ a) (d ∷ b) r s p q h =
    let (e, f) =
      utf8_char-split c d (utf8 a ++ (0 ∷ r)) (utf8 b ++ (0 ∷ s)) (ground arith) (ground arith) (
        sym (append_assoc (utf8_char c) (utf8 a) (0 ∷ r))
        ∙ h
        ∙ append_assoc (utf8_char d) (utf8 b) (0 ∷ s)) in
    let (g, k) = utf8-split a b r s (ground arith) (ground arith) f in (ground arith, k)

-- Hashes of one length stand in front of equal rests.
same_length-split :
    (a b : Bytes) {r s : Bytes} → length a ≡ length b → a ++ r ≡ b ++ s → (a ≡ b) × (r ≡ s)
same_length-split [] [] l h = (refl, h)
same_length-split [] (y ∷ b) l h = absurd (omega arith)
same_length-split (x ∷ a) [] l h = absurd (omega arith)
same_length-split (x ∷ a) (y ∷ b) {r} {s} l h =
    let t : a ++ r ≡ b ++ s = ground arith in
    let (e, f) = same_length-split a b (omega arith) t in (ground arith, f)

append-cons-ne-nil : (xs : Bytes) (y : ℕ) (ys : Bytes) → xs ++ (y ∷ ys) ≢ []
append-cons-ne-nil [] y ys h = cc
append-cons-ne-nil (x ∷ xs) y ys h = cc

-- Two directories whose signed bytes are the same hold the same files: the same paths with the
-- same hashes.
pub preimage_of-injective :
    (f g : Map Bytes) → IsFileMap f → IsFileMap g → preimage_of f ≡ preimage_of g → f ≡ g
unfolding preimage_of
preimage_of-injective [] [] p q h = refl
preimage_of-injective [] ((b, k) ∷ g) p q h =
    absurd (append-cons-ne-nil (utf8 b) 0 (k ++ (0 ∷ preimage_of g)) (sym h))
preimage_of-injective ((a, j) ∷ f) [] p q h =
    absurd (append-cons-ne-nil (utf8 a) 0 (j ++ (0 ∷ preimage_of f)) h)
preimage_of-injective ((a, j) ∷ f) ((b, k) ∷ g) p q h =
    let (e, t) = utf8-split a b (j ++ (0 ∷ preimage_of f)) (k ++ (0 ∷ preimage_of g)) p.0 q.0 h in
    let (i, u) = same_length-split j k (ground arith) t in
    ground (arith, preimage_of-injective f g p.2 q.2)

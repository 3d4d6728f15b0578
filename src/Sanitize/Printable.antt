-- ===== src/Sanitize/Printable.antt =====
-- What reaches the log is printable, and ordinary text reaches it unchanged.
use stanchion.Prelude.{
  ℕ, suc, ◌+◌, ◌*◌, ◌-◌, ◌/◌, ◌%◌, ◌≤◌, ◌<◌, ◌≡◌, refl, Bool, true, not, [], ◌∷◌, arith, all,
  all-append, length, length-append, Text, if◌then◌else◌, Bool-cases, inl, inr,
}
use stanchion.Signature.{hex_digit}
use stanchion.Sanitize.{max_log_message, is_control, escape_default, sanitize_each, sanitize_log}

abbrev pub is_printable : ℕ → Bool
is_printable c = not (is_control c)

hex_digit-is_printable : (n : ℕ) → n < 16 → is_printable (hex_digit n) ≡ true
unfolding hex_digit
hex_digit-is_printable n h = ground arith

escape_default-is_printable : (c : ℕ) → c < 256 → all is_printable (escape_default c) ≡ true
unfolding escape_default
escape_default-is_printable c h = ground (
  arith,
  hex_digit-is_printable c,
  hex_digit-is_printable (c / 16),
  hex_digit-is_printable (c % 16),
)

-- what one character becomes
abbrev written : ℕ → Text
written c = if is_control c then escape_default c else c ∷ []

written-is_printable : (c : ℕ) → all is_printable (written c) ≡ true
written-is_printable c = elim (Bool-cases (is_control c)) [
  | inl e ↦ rw e (escape_default-is_printable c (ground arith))
  | inr e ↦ rw e (ground arith)
]

escape_default-length : (c : ℕ) → length (escape_default c) ≤ 6
unfolding escape_default
escape_default-length c = ground arith

written-length : (c : ℕ) → length (written c) ≤ 6
written-length c = ground (arith, escape_default-length c)

sanitize_each-is_printable : (seen : ℕ) (t : Text) → all is_printable (sanitize_each seen t) ≡ true
unfolding sanitize_each
sanitize_each-is_printable seen [] = refl
sanitize_each-is_printable seen (c ∷ t) = ground (
  arith,
  all-append is_printable (written c) (sanitize_each (suc seen) t),
  written-is_printable c,
  sanitize_each-is_printable (suc seen) t,
)

sanitize_each-length :
    (seen : ℕ) (t : Text)
    → seen ≤ max_log_message
    → length (sanitize_each seen t) ≤ 6 * (max_log_message - seen) + 12
unfolding sanitize_each
sanitize_each-length seen [] h = omega arith
sanitize_each-length seen (c ∷ t) h = ground (
  arith,
  length-append (written c) (sanitize_each (suc seen) t),
  written-length c,
  sanitize_each-length (suc seen) t,
)

sanitize_each-same :
    (seen : ℕ) (t : Text)
    → all is_printable t ≡ true
    → seen + length t ≤ max_log_message
    → sanitize_each seen t ≡ t
unfolding sanitize_each
sanitize_each-same seen [] p h = refl
sanitize_each-same seen (c ∷ t) p h = ground (arith, sanitize_each-same (suc seen) t)

-- No control character reaches the log, and what reaches it of one message is bounded.
pub sanitize_log-is_printable :
    (t : Text)
    → (all is_printable (sanitize_log t) ≡ true)
      × (length (sanitize_log t) ≤ 6 * max_log_message + 12)
unfolding sanitize_log
sanitize_log-is_printable t =
    (sanitize_each-is_printable 0 t, sanitize_each-length 0 t (omega arith))

-- A message within the limit and without control characters is logged as it is.
pub sanitize_log_same :
    (t : Text) → all is_printable t ≡ true → length t ≤ max_log_message → sanitize_log t ≡ t
unfolding sanitize_log
sanitize_log_same t p h = sanitize_each-same 0 t p (omega arith)

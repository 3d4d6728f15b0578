-- ===== src/Sanitize.antt =====
-- crates/stanchion-abi/src/sanitize.rs: what is left of a plugin's log message.
pub mod Printable
use stanchion.Prelude.{
  ℕ, zero, suc, ◌/◌, ◌%◌, Bool, true, false, ◌&&◌, ◌||◌, List, [], ◌∷◌, ◌++◌, ◌==◌, ltb, leb,
  if◌then◌else◌, Text, codes,
}
use stanchion.Signature.{hex_digit}

abbrev pub max_log_message : ℕ
max_log_message = 4096

-- `char::is_control`: the general category Cc
abbrev pub is_control : ℕ → Bool
is_control c = ltb c 0x20 || (leb 0x7f c && leb c 0x9f)

-- the hexadecimal digits of a number below 256, without a leading zero
abbrev short_hex : ℕ → Text
short_hex c = if ltb c 16 then hex_digit c ∷ [] else (hex_digit (c / 16) ∷ hex_digit (c % 16) ∷ [])

-- `char::escape_default`, on a control character
unfoldable pub escape_default : ℕ → Text
escape_default c =
    if c == 9
    then codes "\\t"
    else if c == 13
    then codes "\\r"
    else if c == 10
    then codes "\\n"
    else codes "\\u{" ++ (short_hex c ++ codes "}")

-- the loop, with the number of characters seen
unfoldable pub sanitize_each : ℕ → Text → Text
unfolding escape_default
sanitize_each seen [] = []
sanitize_each seen (c ∷ text) =
    let rest = sanitize_each (suc seen) text in
    if leb max_log_message seen
    then codes "…(truncated)"
    else ((if is_control c then escape_default c else c ∷ []) ++ rest)

unfoldable pub sanitize_log : Text → Text
unfolding sanitize_each
sanitize_log text = sanitize_each 0 text

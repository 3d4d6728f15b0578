-- ===== src/Limits.antt =====
-- crates/stanchion-abi/src/limits.rs: the ceilings a plugin runs under.
pub mod Narrowing
use stanchion.Prelude.{ℕ, Option, none, some, if◌then◌else◌, leb}
use stanchion.Manifest.{Budget}

pub record ResourceLimits : Type 0 where
  pub memory_bytes : Option ℕ
  pub max_instructions : Option ℕ

-- the lower of a ceiling that may be absent and a request
abbrev pub lower : Option ℕ → ℕ → ℕ
lower none requested = requested
lower (some host) requested = if leb host requested then host else requested

unfoldable pub inherit : ResourceLimits
inherit = record { memory_bytes = none; max_instructions = none }

abbrev narrow_memory : Option ℕ → Option ℕ → Option ℕ
narrow_memory host none = host
narrow_memory host (some requested) = some (lower host requested)

unfoldable pub narrowed_by : ResourceLimits → Option Budget → ResourceLimits
narrowed_by limits none = limits
narrowed_by limits (some budget) = record {
  memory_bytes = narrow_memory limits.memory_bytes budget.memory_bytes;
  max_instructions = some (lower limits.max_instructions budget.max_instructions);
}

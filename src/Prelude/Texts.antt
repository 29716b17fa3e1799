-- ===== src/Prelude/Texts.antt =====
-- Python's `+` and `str.startswith` on texts, and the falsy text.
use Prim.Native.Nat.{Ordering}
use Prim.Native.String.{String, ◌++◌, compare}
use mathlib.Core.Bool.{Bool, true, false, not}
use mathlib.Core.Option.{Option, none, some}
use text.Mathlib.Text.{◌==◌ as str_eq}
use ligp_v.Prelude.Tests.{if◌then◌else◌}

abbrev pub concat : String → String → String
concat s t = s ++ t

-- Whether a text, or a text that may be absent, counts as true.
abbrev pub nonempty : String → Bool
nonempty s = not (str_eq s "")

abbrev pub truthy : Option String → Bool
truthy none = false
truthy (some s) = nonempty s

-- `a or b`
abbrev pub or_else : Option String → Option String → Option String
or_else a b = if truthy a then a else b

-- `<` of two strings
abbrev pub string_less : String → String → Bool
string_less a b = elim (compare a b) [
  | Ordering.lt ↦ true
  | Ordering.eq ↦ false
  | Ordering.gt ↦ false
]

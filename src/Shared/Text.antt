-- ===== src/Shared/Text.antt =====
-- Optional texts as JavaScript tests them: an absent or empty text is falsy.
use Prim.Native.String.{String}
use mathlib.Core.Path.{◌≡◌, refl, ap}
use mathlib.Core.Bool.{Bool, true, false, not}
use mathlib.Core.Option.{Option, none, some}
use native.Mathlib.Omega.{arith}
pub use text.Mathlib.Text.{◌==◌ as str_eq}
pub use text.Mathlib.TextEquality.{eq_iff}
pub use text.Mathlib.TextPositions.{eq_refl}

abbrev pub truthy : Option String → Bool
truthy none = false
truthy (some s) = not (str_eq s "")

-- `===` on optional texts.
abbrev pub same_text : Option String → Option String → Bool
same_text none none = true
same_text (some a) (some b) = str_eq a b
same_text _ _ = false

-- What a unique column compares: a null is equal to nothing.
abbrev pub clashes : Option String → Option String → Bool
clashes (some a) (some b) = str_eq a b
clashes none _ = false
clashes _ none = false

pub same_text_refl : (o : Option String) → same_text o o ≡ true
same_text_refl none = ground arith
same_text_refl (some a) = eq_refl a

pub same_text→eq : (a b : Option String) → same_text a b ≡ true → a ≡ b
same_text→eq none none h = refl
same_text→eq none (some b) h = cc
same_text→eq (some a) none h = cc
same_text→eq (some a) (some b) h = ap some ((eq_iff a b).0 h)

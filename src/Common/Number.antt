-- ===== src/Common/Number.antt =====
-- `str::parse::<u64>`: an optional `+`, then decimal digits, at least one, of a value that fits.
use ctxfs.Common.Tests.{ltb, ◌==◌, if◌then◌else◌}
use ctxfs.Common.Bytes.{Text}
use ctxfs.Common.Word.{u64_mod}
use Prim.Native.Nat.{ℕ, ◌+◌, ◌-◌, ◌*◌}
use mathlib.Core.Bool.{Bool, false}
use mathlib.Core.Option.{Option, none, some}
use mathlib.Core.List.{[], ◌∷◌}

unfoldable pub is_digit : ℕ → Bool
is_digit c = if ltb c 48 then false else ltb c 58

-- Digits to be read after a number.
unfoldable pub parse_digits : ℕ → Text → Option ℕ
parse_digits n [] = some n
parse_digits n (c ∷ s) =
    let rest = parse_digits (n * 10 + (c - 48)) s in
    if is_digit c then if ltb (n * 10 + (c - 48)) u64_mod then rest else none else none

unfoldable pub unsigned : Text → Text
unsigned [] = []
unsigned (c ∷ s) = if c == 43 then s else c ∷ s

unfoldable pub parse_nonempty : Text → Option ℕ
parse_nonempty [] = none
parse_nonempty (c ∷ s) = parse_digits 0 (c ∷ s)

unfoldable pub parse_u64 : Text → Option ℕ
parse_u64 s = parse_nonempty (unsigned s)

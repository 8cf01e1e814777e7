-- ===== src/Prelude/Text.antt =====
-- What the program uses of Go's packages strings and strconv, on the native texts.
use Prim.Native.Nat.{ℕ, zero, suc, ◌+◌, ◌-◌, ◌*◌, ◌^◌}
use Prim.Native.String.{String}
use Prim.Native.Char.{code}
use mathlib.Core.Path.{◌≡◌, refl}
use mathlib.Core.Bool.{Bool, true, ◌&&◌}
use mathlib.Core.Option.{Option, none, some}
use mathlib.Core.List.{List, [], ◌∷◌}
use taildog.Prelude.Tests.{leb, ltb, if◌then◌else◌, is_some}
use taildog.Prelude.Int.{ℤ, pos, negsuc}
use taildog.Prelude.Equality.{◌==◌, nat_key, string_key, beq_refl}

-- The code points of a text, which Go's range over a string gives.
abbrev pub codes : String → List ℕ
codes String.[] = []
codes (String.◌∷◌ c s) = code c ∷ codes s

-- What follows a prefix.
unfoldable pub strip_prefix : String → String → Option String
strip_prefix String.[] s = some s
strip_prefix (String.◌∷◌ c p) String.[] = none
strip_prefix (String.◌∷◌ c p) (String.◌∷◌ x s) =
    let rest = strip_prefix p s in
    if String.◌∷◌ c String.[] == String.◌∷◌ x String.[] then rest else none

-- strings.HasPrefix(s, p), the prefix first.
abbrev pub has_prefix : String → String → Bool
has_prefix p s = is_some (strip_prefix p s)

pub has_prefix_self : (s : String) → has_prefix s s ≡ true
unfolding strip_prefix
has_prefix_self String.[] = refl
has_prefix_self (String.◌∷◌ c s) = rw (beq_refl (String.◌∷◌ c String.[])) (has_prefix_self s)

-- strconv.Atoi on a 64-bit machine: a sign, digits, and an error past the range of int.
digits_value : ℕ → List ℕ → Option ℕ
digits_value acc [] = some acc
digits_value acc (c ∷ cs) =
    let rest = digits_value (acc * 10 + (c - b'0')) cs in
    if leb b'0' c && leb c b'9' then rest else none

unsigned : List ℕ → Option ℕ
unfolding digits_value
unsigned [] = none
unsigned (c ∷ cs) = digits_value 0 (c ∷ cs)

positive : Option ℕ → Option ℤ
positive none = none
positive (some n) = if ltb n (2 ^ 63) then some (pos n) else none

negative : Option ℕ → Option ℤ
negative none = none
negative (some zero) = some (pos 0)
negative (some (suc n)) = if ltb n (2 ^ 63) then some (negsuc n) else none

signed : List ℕ → Option ℤ
unfolding unsigned positive negative
signed [] = none
signed (c ∷ cs) =
    if c == b'-'
    then negative (unsigned cs)
    else if c == b'+'
    then positive (unsigned cs)
    else positive (unsigned (c ∷ cs))

unfoldable pub atoi : String → Option ℤ
unfolding signed
atoi s = signed (codes s)

atoi_runs : atoi "65535" ≡ some (pos 65535)
unfolding atoi
atoi_runs = refl

atoi_negative : atoi "-12" ≡ some (negsuc 11)
unfolding atoi
atoi_negative = refl

atoi_out_of_range : atoi "9223372036854775808" ≡ none
unfolding atoi
atoi_out_of_range = refl

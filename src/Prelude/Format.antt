-- ===== src/Prelude/Format.antt =====
-- Package fmt, as far as the messages of the source need it: %d, %q and strings.Join.
use Prim.Native.Nat.{ℕ, zero, suc, ◌+◌, ◌/◌, ◌%◌}
use mathlib.Core.Bool.{◌||◌, not}
use mathlib.Core.List.{List, [], ◌∷◌, ◌++◌}
use kube_net_mods.Prelude.Tests.{ltb, ◌==◌, if◌then◌else◌}
use kube_net_mods.Prelude.Text.{Str, codes}
use kube_net_mods.Prelude.Int.{ℤ, pos, negsuc}

-- The digits of `n`, before those of `tail`; `n + 1` rounds are more than it has digits.
digits_from : ℕ → ℕ → Str → Str
digits_from zero n rest = rest
digits_from (suc f) n rest =
    let digit = (n % 10 + b'0') ∷ rest in
    let more = digits_from f (n / 10) digit in if ltb n 10 then digit else more

-- %d of a number that is not negative
unfoldable pub digits : ℕ → Str
unfolding digits_from
digits n = digits_from (n + 1) n []

-- %d
unfoldable pub decimal : ℤ → Str
unfolding digits
decimal (pos n) = digits n
decimal (negsuc n) = b'-' ∷ digits (n + 1)

escape : ℕ → Str
escape c =
    if c == b'"' || c == 92
    then 92 ∷ c ∷ []
    else if c == 10
    then codes "\\n"
    else if c == 9
    then codes "\\t"
    else if c == 13
    then codes "\\r"
    else c ∷ []

escape_all : Str → Str
unfolding escape
escape_all [] = []
escape_all (c ∷ s) = escape c ++ escape_all s

-- %q, for text whose characters are printable but for the tab and the line ends
unfoldable pub quote : Str → Str
unfolding escape_all
quote s = b'"' ∷ (escape_all s ++ b'"' ∷ [])

-- strings.Join
unfoldable pub join : List Str → Str → Str
join [] sep = []
join (s ∷ []) sep = s
join (s ∷ t ∷ ss) sep = s ++ (sep ++ join (t ∷ ss) sep)

-- The parts of a message, one after another.
unfoldable pub concat : List Str → Str
concat [] = []
concat (s ∷ ss) = s ++ concat ss

-- fmt.Sprintf: %q quotes its argument, %s, %d and %v take it as it is, %% is a percent sign.
unfoldable pub sprintf : Str → List Str → Str
unfolding quote
sprintf [] args = []
sprintf (c ∷ []) args = c ∷ []
sprintf (c ∷ v ∷ f) args =
    let plain = c ∷ sprintf (v ∷ f) args in
    let percent = b'%' ∷ sprintf f args in
    let verb : Str = elim args [
      | [] ↦ sprintf f []
      | arg ∷ rest ↦ (if v == b'q' then quote arg else arg) ++ sprintf f rest
    ] in
    if not (c == b'%') then plain else if v == b'%' then percent else verb

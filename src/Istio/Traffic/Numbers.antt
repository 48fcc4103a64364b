-- ===== src/Istio/Traffic/Numbers.antt =====
-- The int64 arithmetic of delays and the reading of a status code (internal/check/istio_traffic.go).
use kube_net_mods.Prelude.{
  ℕ, zero, suc, ◌+◌, ◌-◌, ◌*◌, ◌%◌, ◌^◌, Bool, true, false, ◌&&◌, ◌==◌, ltb, leb, [], ◌∷◌, Option,
  none, some, Str, is_empty, if◌then◌else◌, trim_space, ℤ, pos, negsuc,
}
use kube_net_mods.Runtime.Probe.{HttpResult}
use kube_net_mods.Istio.Config.{Duration}

-- The residue of an int64 modulo 2 ^ 64, and the int64 of a residue.
abbrev pub word : ℤ → ℕ
word (pos n) = n % 2 ^ 64
word (negsuc n) = 2 ^ 64 - 1 - n % 2 ^ 64

abbrev pub of_word : ℕ → ℤ
of_word w = if ltb w (2 ^ 63) then pos w else negsuc (2 ^ 64 - 1 - w)

-- time.Duration(d.Seconds)*time.Second + time.Duration(d.Nanos)*time.Nanosecond
unfoldable pub nanoseconds : Duration → ℤ
nanoseconds d = of_word ((word d.seconds * 1_000_000_000 + word d.nanos) % 2 ^ 64)

-- The value of a text of digits; `none` if it has another character.
digits_value : ℕ → Str → Option ℕ
digits_value n [] = some n
digits_value n (c ∷ s) =
    let later = digits_value (n * 10 + (c - b'0')) s in
    if leb b'0' c && leb c b'9' then later else none

abbrev signed : Bool → Option ℕ → Option ℤ
signed minus none = none
signed minus (some zero) = some (pos 0)
signed false (some (suc n)) = if ltb (suc n) (2 ^ 63) then some (pos (suc n)) else none
signed true (some (suc n)) = if leb (suc n) (2 ^ 63) then some (negsuc n) else none

number_of : Bool → Str → Option ℤ
unfolding digits_value
number_of minus s = if is_empty s then none else signed minus (digits_value 0 s)

-- strconv.Atoi
unfoldable pub atoi : Str → Option ℤ
unfolding number_of
atoi [] = none
atoi (c ∷ s) =
    if c == b'-'
    then number_of true s
    else if c == b'+'
    then number_of false s
    else number_of false (c ∷ s)

unfoldable pub runtime_status_code : HttpResult → ℤ
unfolding atoi trim_space
runtime_status_code result = elim (atoi (trim_space result.status_code)) [
  | none ↦ pos 0
  | some status ↦ status
]

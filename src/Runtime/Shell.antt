-- ===== src/Runtime/Shell.antt =====
-- ShellQuote and the command of CurlURL (internal/runtime/runtime.go), and a reading of quoted words
-- as `sh` does it.
use kube_net_mods.Prelude.{
  ℕ, ◌||◌, ◌==◌, ==_iff, ◌≡◌, refl, ap, inl, inr, List, [], ◌∷◌, ◌++◌, map, Option, none, some, Str,
  codes, if◌then◌else◌, Bool-cases, join, concat, sort_strings, sort_perm, ℤ, is_pos, decimal,
}
use mathlib.Core.List.{Permᴰ}
use kube_net_mods.Cluster.{Labels}

-- strings.ReplaceAll(s, "'", by)
unfoldable pub replace_quotes : Str → Str → Str
replace_quotes [] by = []
replace_quotes (c ∷ s) by =
    let rest = replace_quotes s by in if c == b'\'' then by ++ rest else c ∷ rest

abbrev quoted_quote : Str
quoted_quote = b'\'' ∷ b'"' ∷ b'\'' ∷ b'"' ∷ b'\'' ∷ []

unfoldable pub shell_quote : Str → Str
unfolding replace_quotes
shell_quote value = b'\'' ∷ (replace_quotes value quoted_quote ++ b'\'' ∷ [])

-- The command of CurlURL; the seconds of the timeout are a parameter.
abbrev header_arg : Str × Str → Str
header_arg (key, value) = codes "-H " ++ shell_quote (key ++ codes ": " ++ value)

abbrev timeout_seconds : ℤ → Str
timeout_seconds seconds = if is_pos seconds then decimal seconds else codes "5"

unfoldable pub curl_command : Str → ℤ → Labels → Str
unfolding shell_quote sort_strings join concat decimal
curl_command raw_url seconds headers = concat (
    codes "curl -k -sS -i -w '\\nHTTP_STATUS=%{http_code}' --connect-timeout "
    ∷ timeout_seconds seconds
    ∷ codes " --max-time "
    ∷ timeout_seconds seconds
    ∷ codes " "
    ∷ join (sort_strings (map header_arg headers)) (codes " ")
    ∷ codes " "
    ∷ shell_quote raw_url
    ∷ [])

-- The command of ResolveHost
unfoldable pub resolve_command : Str → Str
unfolding shell_quote concat
resolve_command host = concat (
    codes "if command -v nslookup >/dev/null 2>&1; then nslookup "
    ∷ shell_quote host
    ∷ codes " >/dev/null 2>&1; elif command -v getent >/dev/null 2>&1; then getent hosts "
    ∷ shell_quote host
    ∷ codes
        " >/dev/null 2>&1; else echo 'no resolver tool available: nslookup/getent' >&2; exit 127; fi"
    ∷ [])

-- How `sh` reads a word: outside quotes, within '…', within "…".
pub data Mode : Type 0 where
  plain single double : Mode

abbrev pub pushed : ℕ → Option (Str × Str) → Option (Str × Str)
pushed c none = none
pushed c (some (word, rest)) = some (c ∷ word, rest)

-- The word that a text starts with, and what comes after it. A character that the shell would
-- interpret gives nothing.
unfoldable pub read_word : Mode → Str → Option (Str × Str)
read_word plain [] = some ([], [])
read_word plain (c ∷ s) =
    let in_single = read_word single s in
    let in_double = read_word double s in
    if c == b'\''
    then in_single
    else if c == b'"'
    then in_double
    else if c == b' '
    then some ([], c ∷ s)
    else none
read_word single [] = none
read_word single (c ∷ s) =
    let closed = read_word plain s in
    let more = read_word single s in if c == b'\'' then closed else pushed c more
read_word double [] = none
read_word double (c ∷ s) =
    let closed = read_word plain s in
    let more = read_word double s in
    if c == b'"' then closed else if c == b'$' || c == b'`' || c == 92 then none else pushed c more

abbrev pub prefixed : Str → Option (Str × Str) → Option (Str × Str)
prefixed [] o = o
prefixed (c ∷ s) o = pushed c (prefixed s o)

inside :
    (value rest : Str)
    → read_word single ((replace_quotes value quoted_quote ++ b'\'' ∷ []) ++ rest)
      ≡ prefixed value (read_word plain rest)
unfolding read_word replace_quotes
inside [] rest = refl
inside (c ∷ s) rest = elim (Bool-cases (c == b'\'')) [
  | inl e ↦ let q : c ≡ b'\'' = (==_iff _ _).0 e in rw (q, ← (inside s rest)) refl
  | inr e ↦ rw e (rw e (ap (pushed c) (inside s rest)))
]

-- A quoted value is read back as it is, whatever it contains, and the text after it is read as if
-- the value were not there: no value ends its word or starts another.
pub read_word-shell_quote :
    (value rest : Str)
    → read_word plain (shell_quote value ++ rest) ≡ prefixed value (read_word plain rest)
unfolding shell_quote read_word
read_word-shell_quote value rest = inside value rest

map_perm : {A B : Type 0} (f : A → B) {xs ys : List A} → Permᴰ xs ys → Permᴰ (map f xs) (map f ys)
map_perm f Permᴰ.nil = Permᴰ.nil
map_perm f (Permᴰ.cons e p) = Permᴰ.cons (ap f e) (map_perm f p)
map_perm f (Permᴰ.swap e g) = Permᴰ.swap (ap f e) (ap f g)
map_perm f (Permᴰ.trans p q) = Permᴰ.trans (map_perm f p) (map_perm f q)

-- The command does not depend on the order in which the headers' map is read.
pub curl_command_order :
    (raw_url : Str) (seconds : ℤ) {headers others : Labels}
    → Permᴰ headers others
    → curl_command raw_url seconds headers ≡ curl_command raw_url seconds others
unfolding curl_command
curl_command_order raw_url seconds p = rw (sort_perm (map_perm header_arg p)) refl

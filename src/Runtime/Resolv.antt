-- ===== src/Runtime/Resolv.antt =====
-- ParseResolvConf (internal/runtime/runtime.go).
use kube_net_mods.Prelude.{
  true, false, ◌==◌, ◌≡◌, ◌≢◌, refl, ◌↔◌, ◌⊎◌, inl, inr, List, [], ◌∷◌, ◌++◌, Str, codes, str_eq,
  str_eq_iff, has_prefix, is_empty, is_space, trim_space, if◌then◌else◌, Bool-cases, Memᴰ, mem_inv,
  mem_there, mem-append_left, mem-append_right, mem-append_inv, Exists,
}
use kube_net_mods.Native.Names.{unique_strings, mem-unique_iff}

-- The character that was read, before the pieces that follow it.
abbrev on_first : (Str → Str) → List Str → List Str
on_first f [] = f [] ∷ []
on_first f (piece ∷ pieces) = f piece ∷ pieces

-- strings.Split(s, "\n")
unfoldable pub split_lines : Str → List Str
split_lines [] = [] ∷ []
split_lines (c ∷ s) =
    let lines = split_lines s in if c == 10 then [] ∷ lines else on_first (λ line. c ∷ line) lines

abbrev not_empty : List Str → List Str
not_empty [] = []
not_empty (piece ∷ pieces) =
    let rest = not_empty pieces in if is_empty piece then rest else piece ∷ rest

split_spaces : Str → List Str
unfolding is_space
split_spaces [] = [] ∷ []
split_spaces (c ∷ s) =
    let words = split_spaces s in
    if is_space c then [] ∷ words else on_first (λ word. c ∷ word) words

-- strings.Fields
unfoldable pub fields : Str → List Str
unfolding split_spaces
fields s = not_empty (split_spaces s)

pub record ResolvConf : Type 0 where
  pub nameservers : List Str
  pub searches : List Str
  pub raw : Str

abbrev first_of : List Str → List Str
first_of [] = []
first_of (a ∷ more) = a ∷ []

-- What one line adds: the first argument of `nameserver`, and all arguments of `search`.
nameserver_of : List Str → List Str
unfolding has_prefix str_eq
nameserver_of [] = []
nameserver_of (word ∷ args) =
    if has_prefix word (codes "#")
    then []
    else if str_eq word (codes "nameserver")
    then first_of args
    else []

searches_of : List Str → List Str
unfolding has_prefix str_eq
searches_of [] = []
searches_of (word ∷ args) =
    if has_prefix word (codes "#")
    then []
    else if str_eq word (codes "nameserver")
    then []
    else if str_eq word (codes "search")
    then args
    else []

-- The loop over the lines, with both lists.
read_lines : List Str → List Str → List Str → List Str × List Str
unfolding fields trim_space nameserver_of searches_of
read_lines [] nameservers searches = (nameservers, searches)
read_lines (line ∷ lines) nameservers searches =
    let words = fields (trim_space line) in
    read_lines lines (nameservers ++ nameserver_of words) (searches ++ searches_of words)

unfoldable pub parse_resolv_conf : Str → ResolvConf
unfolding read_lines split_lines unique_strings
parse_resolv_conf text =
    let read = read_lines (split_lines text) [] [] in
    record { nameservers = unique_strings read.0; searches = unique_strings read.1; raw = text }

-- A line declares a name server.
abbrev pub Declares : Str → Str → Type 0
Declares server line =
    (more : List Str) × (fields (trim_space line) ≡ codes "nameserver" ∷ server ∷ more)

nameserver_of_iff :
    (words : List Str) (server : Str)
    → Memᴰ server (nameserver_of words)
      ↔ ((more : List Str) × (words ≡ codes "nameserver" ∷ server ∷ more))
unfolding nameserver_of has_prefix str_eq
nameserver_of_iff [] server = (λ m. elim m [ ], λ (more, e). absurd (nil_ne e))
  where
    nil_ne : {x : Str} {xs : List Str} → [] ≢ (x ∷ xs)
    nil_ne e = cc
nameserver_of_iff (word ∷ args) server = elim (Bool-cases (has_prefix word (codes "#"))) [
  | inl e ↦ rw e (λ m. elim m [ ], λ (more, q). absurd (comment_ne e (head_eq q)))
  | inr e ↦ elim (Bool-cases (str_eq word (codes "nameserver"))) [
    | inl f ↦ rw (e, f) (first_iff word args server ((str_eq_iff _ _).0 f))
    | inr f ↦ rw (e, f) (λ m. elim m [ ], λ (more, q). cc (f, (str_eq_iff _ _).1 (head_eq q)))
  ]
]
  where
    head_eq : {x y : Str} {xs ys : List Str} → x ∷ xs ≡ y ∷ ys → x ≡ y
    head_eq q = cc

    comment_ne : {w : Str} → has_prefix w (codes "#") ≡ true → w ≡ codes "nameserver" → ⊥
    comment_ne e q = absurd (cc (rw q at e))

    first_iff :
        (w : Str) (ws : List Str) (x : Str)
        → w ≡ codes "nameserver"
        → Memᴰ x (first_of ws) ↔ ((more : List Str) × (w ∷ ws ≡ codes "nameserver" ∷ x ∷ more))
    first_iff w [] x e = (λ m. elim m [ ], λ (more, q). cc)
    first_iff w (a ∷ ws) x e = (
      λ m. elim (mem_inv m) [ inl f ↦ (ws, rw (e, f) refl) | inr n ↦ elim n [ ] ],
      λ (more, q). Memᴰ.head (cc (q)),
    )

read_lines_iff :
    (lines nameservers searches : List Str) (server : Str)
    → Memᴰ server (read_lines lines nameservers searches).0
      ↔ (Memᴰ server nameservers ⊎ Exists (Declares server) lines)
unfolding read_lines
read_lines_iff [] nameservers searches server =
    (inl, λ h. elim h [ inl m ↦ m | inr (l, n, _) ↦ elim n [ ] ])
read_lines_iff (line ∷ lines) nameservers searches server =
    let words = fields (trim_space line) in
    let (to, from) =
      read_lines_iff lines (nameservers ++ nameserver_of words) (searches ++ searches_of words)
        server in
    let (of_to, of_from) = nameserver_of_iff words server in
    (
      λ m. elim (to m) [
        | inl n ↦ elim (mem-append_inv nameservers n) [
          | inl k ↦ inl k
          | inr k ↦ inr (line, Memᴰ.head refl, of_to k)
        ]
        | inr (l, n, d) ↦ inr (l, mem_there n, d)
      ],
      λ h. elim h [
        | inl n ↦ from (inl (mem-append_left _ n))
        | inr (l, n, d) ↦ elim (mem_inv n) [
          | inl e ↦ from (inl (mem-append_right nameservers (of_from (rw e at d))))
          | inr k ↦ from (inr (l, k, d))
        ]
      ],
    )

-- The name servers are exactly those that some line declares.
pub parse_resolv_conf_nameserver_iff :
    (text server : Str)
    → Memᴰ server (parse_resolv_conf text).nameservers
      ↔ (Exists (Declares server) (split_lines text) × (is_empty server ≡ false))
unfolding parse_resolv_conf
parse_resolv_conf_nameserver_iff text server =
    let (to, from) = mem-unique_iff (read_lines (split_lines text) [] []).0 server in
    let (read, unread) = read_lines_iff (split_lines text) [] [] server in
    (
      λ m. let (n, e) = to m in elim (read n) [ inl k ↦ elim k [ ] | inr d ↦ (d, e) ],
      λ (d, e). from (unread (inr d), e),
    )

-- ===== src/Options/Parse.antt =====
-- shared/parse.c. A string is the list of its characters, without the final 0; the functions of the
-- C library are parameters.
use ngnfs_progs.Prelude.{
  ℕ, zero, suc, ltb, ◌==◌, ◌||◌, if◌then◌else◌, Bool, true, false, Option, none, some, List, [],
  ◌∷◌, take, drop,
}
use ngnfs_progs.Prelude.Int.{ℤ, pos, leb_ℤ}
use ngnfs_progs.Prelude.Errno.{Errno, einval, enomem}

abbrev pub Str : Type 0
Str = List ℕ

-- A parsed value or an error, as the functions of shared/nerr.h return them.
pub data Parsed (A : Type 0) : Type 0 where
  value : A → Parsed A
  error : Errno → Parsed A

-- A conversion by strtoull or strtoll with base 0: the number, the errno it sets, and the rest.
abbrev pub Converted : Type 0 → Type 0
Converted A = A × Option Errno × Str

-- The functions of the C library, and whether strdup and strndup have memory.
pub record Libc : Type 0 where
  pub strtoull : Str → Converted ℕ
  pub strtoll : Str → Converted ℤ
  pub inet_aton : Str → Option ℕ
  pub strdup : Bool

-- shared/nerr.h: errno comes first, then what is left of the string.
abbrev pub finish_strto_x : {A : Type 0} → Converted A → Parsed A
finish_strto_x (n, some e, rest) = error e
finish_strto_x (n, none, []) = value n
finish_strto_x (n, none, c ∷ rest) = error einval

-- The character ':'.
abbrev pub colon : ℕ
colon = 58

-- index(3): the position of the first such character.
abbrev pub index : Str → ℕ → Option ℕ
index [] c = none
index (x ∷ xs) c =
    if x == c then some 0 else elim (index xs c) [ none ↦ none | some i ↦ some (suc i) ]

pub record SockaddrIn : Type 0 where
  pub s_addr : ℕ
  pub port : ℕ

abbrev pub inaddr_any : ℕ
inaddr_any = 0

-- The address before the separator, or all of the string; NULL is `none`.
abbrev pub addr_part : Str → Option ℕ → Option Str
addr_part str none = some str
addr_part str (some zero) = none
addr_part str (some (suc i)) = some (take (suc i) str)

module _ (libc : Libc) where
  unfoldable pub parse_ull : Str → ℕ → ℕ → Parsed ℕ
  parse_ull str least most = elim (finish_strto_x (libc.strtoull str)) [
    | error e ↦ error e
    | value n ↦ if ltb n least || ltb most n then error einval else value n
  ]

  unfoldable pub parse_ll : Str → ℤ → ℤ → Parsed ℤ
  parse_ll str least most = elim (finish_strto_x (libc.strtoll str)) [
    | error e ↦ error e
    | value n ↦
        if leb_ℤ least n then (if leb_ℤ n most then value n else error einval) else error einval
  ]

  -- What strndup is called for.
  abbrev pub dup_fails : Option ℕ → Bool
  dup_fails none = false
  dup_fails (some zero) = false
  dup_fails (some (suc i)) = if libc.strdup then false else true

  abbrev pub parse_addr : Option Str → Parsed ℕ
  parse_addr none = value inaddr_any
  parse_addr (some addr) = elim (libc.inet_aton addr) [ none ↦ error einval | some a ↦ value a ]

  -- The part behind the separator, where there is one and it is not empty. The bounds leave no
  -- negative number.
  abbrev pub port_of : Str → Parsed ℕ
  port_of [] = value 0
  port_of (c ∷ cs) = elim (parse_ll (c ∷ cs) (pos 0) (pos 65535)) [
    | error e ↦ error e
    | value n ↦ elim n [ ℤ.pos k ↦ value k | ℤ.negsuc k ↦ value 0 ]
  ]

  abbrev pub parse_port : Str → Option ℕ → Parsed ℕ
  parse_port str none = value 0
  parse_port str (some i) = port_of (drop (suc i) str)

  unfoldable pub parse_ipv4_addr_port : Str → Parsed SockaddrIn
  parse_ipv4_addr_port str =
      let sep = index str colon in
      if dup_fails sep then error enomem else elim (parse_addr (addr_part str sep)) [
        | error e ↦ error e
        | value a ↦ elim (parse_port str sep) [
          | error e ↦ error e
          | value p ↦ value (record { s_addr = a; port = p })
        ]
      ]

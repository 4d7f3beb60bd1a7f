-- ===== src/Paths.antt =====
-- server_path.go: paths on the server's own file system.
pub mod Join
use gosmo.Base.{
  ℕ, ◌≡◌, refl, Bool, true, false, ◌&&◌, ◌||◌, Option, none, some, List, [], ◌∷◌, ◌++◌, Bytes,
  codes, ◌==◌, if◌then◌else◌, contains_func,
}

abbrev pub backslash : ℕ
backslash = 92

unfoldable pub is_separator : ℕ → Bool
is_separator c = c == b'/' || c == backslash

-- A path around its last separator.
pub record Parts : Type 0 where
  pub front : Bytes
  pub separator : ℕ
  pub base : Bytes

-- strings.LastIndexAny(path, `/\`)
unfoldable pub last_separator : Bytes → Option Parts
unfolding is_separator
last_separator [] = none
last_separator (c ∷ s) = elim (last_separator s) [
  | some p ↦ some (record p { front = c ∷ p.front })
  | none ↦ elim (is_separator c) [
    | true ↦ some (record { front = []; separator = c; base = s })
    | false ↦ none
  ]
]

unfoldable pub server_path_base : Bytes → Bytes
unfolding last_separator
server_path_base path = elim (last_separator path) [ none ↦ path | some p ↦ p.base ]

-- dir == "" || (len(dir) == 2 && dir[1] == ':')
unfoldable pub is_root : Bytes → Bool
is_root [] = true
is_root (c ∷ d ∷ []) = d == b':'
is_root _ = false

unfoldable pub server_path_dir : Bytes → Bytes
unfolding last_separator is_root
server_path_dir path = elim (last_separator path) [
  | none ↦ []
  | some p ↦ if is_root p.front then p.front ++ p.separator ∷ [] else p.front
]

unfoldable pub server_path_separator : Bytes → Bytes
server_path_separator path =
    if contains_func (λ c. c == backslash) path then backslash ∷ [] else codes "/"

-- strings.HasSuffix with either separator
unfoldable pub ends_in_separator : Bytes → Bool
unfolding is_separator
ends_in_separator [] = false
ends_in_separator (c ∷ []) = is_separator c
ends_in_separator (c ∷ d ∷ s) = ends_in_separator (d ∷ s)

unfoldable pub join_server_path : Bytes → Bytes → Bytes
unfolding ends_in_separator server_path_separator
join_server_path [] file = file
join_server_path (c ∷ dir) file =
    if ends_in_separator (c ∷ dir)
    then (c ∷ dir) ++ file
    else (c ∷ dir) ++ (server_path_separator (c ∷ dir) ++ file)

-- base[strings.LastIndex(base, "."):], if that index is not 0
unfoldable pub last_dot : Bytes → Option Bytes
last_dot [] = none
last_dot (c ∷ s) = elim (last_dot s) [
  | some e ↦ some e
  | none ↦ elim (c == b'.') [ true ↦ some (c ∷ s) | false ↦ none ]
]

-- The last dot of base[1:], since a dot at index 0 is none.
unfoldable pub server_path_ext : Bytes → Bytes
unfolding server_path_base last_dot
server_path_ext path = elim (server_path_base path) [
  | [] ↦ []
  | c ∷ s ↦ elim (last_dot s) [ none ↦ [] | some e ↦ e ]
]

ext_test : server_path_ext (codes "C:/x.y/a.b.mdf") ≡ codes ".mdf"
unfolding server_path_ext last_separator
ext_test = refl

relative_test :
    join_server_path (server_path_dir (codes "x\\a")) (server_path_base (codes "x\\a"))
    ≡ codes "x/a"
unfolding join_server_path server_path_dir server_path_base last_separator
relative_test = refl

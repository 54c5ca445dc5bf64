-- ===== src/Net.antt =====
-- The standard library's socket addresses and Unix paths, as far as the configuration code uses
-- them.
use locho.Base.{
  ℕ, Bool, false, ◌||◌, List, [], ◌∷◌, Option, none, some, Bytes, codes, str_eq, split, is_empty,
  if◌then◌else◌, ◌==◌,
}

pub data IpAddr : Type 0 where
  v4 v6 : Bytes → IpAddr

pub record SocketAddr : Type 0 where
  pub ip : IpAddr
  pub port : ℕ

-- `Path::is_absolute` on Unix.
abbrev pub is_absolute : Bytes → Bool
is_absolute [] = false
is_absolute (c ∷ path) = c == b'/'

-- The components of an absolute path behind its root: empty ones and `.` are skipped.
abbrev pub normal_components : List Bytes → List Bytes
normal_components [] = []
normal_components (c ∷ cs) =
    let rest = normal_components cs in if is_empty c || str_eq c (codes ".") then rest else c ∷ rest

abbrev pub components : Bytes → List Bytes
components path = normal_components (split b'/' path)

abbrev pub is_parent_dir : Bytes → Bool
is_parent_dir c = str_eq c (codes "..")

abbrev pub last? : List Bytes → Option Bytes
last? [] = none
last? (c ∷ []) = some c
last? (c ∷ d ∷ cs) = last? (d ∷ cs)

-- `Path::file_name` of an absolute path: its last component, unless that is `..`.
abbrev pub file_name : Bytes → Option Bytes
file_name path = elim (last? (components path)) [
  | none ↦ none
  | some c ↦ if is_parent_dir c then none else some c
]

abbrev pub ends_with : Bytes → Bytes → Bool
ends_with suffix [] = is_empty suffix
ends_with suffix (c ∷ cs) = str_eq suffix (c ∷ cs) || ends_with suffix cs

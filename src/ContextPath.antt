-- ===== src/ContextPath.antt =====
-- Where a context's file lies: `context_log_path.join(tag).with_extension("log")` of
-- src/logger/logger_thread_ctx.rs, with the two functions of std::path::Path on plain paths
-- (Unix separators; not the root alone, and no `..` at the end).
pub mod Laws
use paperlog.Base.{
  ℕ, ◌≡◌, Bool, true, false, not, ◌&&◌, ◌==◌, if◌then◌else◌, Text, codes, List, [], ◌∷◌, ◌++◌,
  Option, none, some,
}

abbrev pub slash : ℕ
slash = b'/'

abbrev pub dot : ℕ
dot = b'.'

-- `Path::join`: an absolute path replaces the base.
unfoldable pub join : Text → Text → Text
join base [] = base ++ slash ∷ []
join base (c ∷ s) = if c == slash then c ∷ s else base ++ slash ∷ c ∷ s

all_slashes : Text → Bool
all_slashes [] = true
all_slashes (c ∷ s) = c == slash && all_slashes s

-- Is there a separator with something behind it? Trailing separators do not count.
unfoldable pub has_parent : Text → Bool
unfolding all_slashes
has_parent [] = false
has_parent (c ∷ s) = if c == slash then not (all_slashes s) else has_parent s

unfoldable pub until_slash : Text → Text
until_slash [] = []
until_slash (c ∷ s) = if c == slash then [] else c ∷ until_slash s

-- All before the last `.`, if there is one.
unfoldable pub before_last_dot : Text → Option Text
before_last_dot [] = none
before_last_dot (c ∷ s) = elim (before_last_dot s) [
  | some stem ↦ some (c ∷ stem)
  | none ↦ if c == dot then some [] else none
]

-- The name without its extension; a name whose only `.` comes first has none.
unfoldable pub file_stem : Text → Text
file_stem name = elim (before_last_dot name) [
  | none ↦ name
  | some stem ↦ elim stem [ [] ↦ name | c ∷ s ↦ c ∷ s ]
]

-- `Path::with_extension`: only the last component is touched.
unfoldable pub with_extension : Text → Text → Text
with_extension [] ext = file_stem [] ++ dot ∷ ext
with_extension (c ∷ s) ext =
    if has_parent (c ∷ s)
    then c ∷ with_extension s ext
    else file_stem (until_slash (c ∷ s)) ++ dot ∷ ext

unfoldable pub context_path : Text → Text → Text
context_path dir tag = with_extension (join dir tag) (codes "log")

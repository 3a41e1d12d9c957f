-- ===== src/ContextPath/Laws.antt =====
-- Which tags have a file of their own.
use paperlog.Base.{
  ℕ, ◌≡◌, refl, ◌≢◌, Bool, true, false, ◌==◌, if◌then◌else◌, Text, codes, [], ◌∷◌, ◌++◌, none, some,
  arith, ap, sym, ◌∙◌, append_cancel_left, append_cancel_right,
}
use paperlog.ContextPath.{
  slash, dot, join, all_slashes, has_parent, until_slash, before_last_dot, file_stem,
  with_extension, context_path,
}

-- Does the character stand in the text?
abbrev pub has : ℕ → Text → Bool
has c [] = false
has c (x ∷ s) = if x == c then true else has c s

-- A tag that is a plain file name: not empty, and with no separator in it.
abbrev pub IsName : Text → Type 0
IsName name = (has slash name ≡ false) × (name ≢ [])

before_last_dot-none : (s : Text) → has dot s ≡ false → before_last_dot s ≡ none
unfolding before_last_dot
before_last_dot-none [] h = refl
before_last_dot-none (c ∷ s) h = ground (arith, before_last_dot-none s)

before_last_dot-append : (s t : Text) → has dot t ≡ false → before_last_dot (s ++ dot ∷ t) ≡ some s
unfolding before_last_dot
before_last_dot-append [] t h = ground (arith, before_last_dot-none t)
before_last_dot-append (c ∷ s) t h = ground (arith, before_last_dot-append s t)

file_stem-plain : (s : Text) → has dot s ≡ false → file_stem s ≡ s
unfolding file_stem
file_stem-plain s h = ground (arith, before_last_dot-none s)

file_stem-append : (s t : Text) → s ≢ [] → has dot t ≡ false → file_stem (s ++ dot ∷ t) ≡ s
unfolding file_stem
file_stem-append s t n h = ground (arith, before_last_dot-append s t)

until_slash-plain : (s : Text) → has slash s ≡ false → until_slash s ≡ s
unfolding until_slash
until_slash-plain [] h = refl
until_slash-plain (c ∷ s) h = ground (arith, until_slash-plain s)

has_parent-plain : (s : Text) → has slash s ≡ false → has_parent s ≡ false
unfolding has_parent
has_parent-plain [] h = refl
has_parent-plain (c ∷ s) h = ground (arith, has_parent-plain s)

all_slashes-append : (dir name : Text) → IsName name → all_slashes (dir ++ slash ∷ name) ≡ false
unfolding all_slashes
all_slashes-append [] [] h = absurd (h.1 refl)
all_slashes-append [] (c ∷ name) h = ground arith
all_slashes-append (c ∷ dir) name h = ground (arith, all_slashes-append dir name h)

has_parent-join : (dir name : Text) → IsName name → has_parent (dir ++ slash ∷ name) ≡ true
unfolding has_parent all_slashes
has_parent-join [] [] h = absurd (h.1 refl)
has_parent-join [] (c ∷ name) h = ground arith
has_parent-join (c ∷ dir) name h =
    ground (arith, has_parent-join dir name h, all_slashes-append dir name h)

with_extension-plain :
    (name ext : Text)
    → has slash name ≡ false
    → with_extension name ext ≡ file_stem name ++ dot ∷ ext
unfolding with_extension
with_extension-plain [] ext h = refl
with_extension-plain (c ∷ s) ext h =
    ground (arith, has_parent-plain (c ∷ s), until_slash-plain (c ∷ s))

-- Below a directory only the name changes.
with_extension-join :
    (dir name ext : Text)
    → IsName name
    → with_extension (dir ++ slash ∷ name) ext ≡ dir ++ slash ∷ file_stem name ++ dot ∷ ext
unfolding with_extension
with_extension-join [] name ext h =
    rw (has_parent-join [] name h) (ap (◌∷◌ slash) (with_extension-plain name ext h.0))
with_extension-join (c ∷ dir) name ext h =
    rw (has_parent-join (c ∷ dir) name h) (ap (◌∷◌ c) (with_extension-join dir name ext h))

-- A plain name as tag gives a file of that name, less its extension, in the directory.
pub context_path-name :
    (dir tag : Text)
    → IsName tag
    → context_path dir tag ≡ dir ++ slash ∷ file_stem tag ++ codes ".log"
unfolding context_path join
context_path-name dir [] h = absurd (h.1 refl)
context_path-name dir (c ∷ s) h = ground (arith, with_extension-join dir (c ∷ s) (codes "log") h)

has-append : (c : ℕ) (s t : Text) → has c s ≡ false → has c t ≡ false → has c (s ++ t) ≡ false
has-append c [] t h k = k
has-append c (x ∷ s) t h k = ground (arith, has-append c s t)

dotted-IsName : (stem ext : Text) → IsName stem → has slash ext ≡ false → IsName (stem ++ dot ∷ ext)
dotted-IsName [] ext h k = absurd (h.1 refl)
dotted-IsName (c ∷ stem) ext h k =
    (has-append slash (c ∷ stem) (dot ∷ ext) h.0 (ground arith), ground arith)

-- Two tags that are plain names and differ only behind their last dot share one file.
pub context_path_shared :
    (dir stem x y : Text)
    → IsName stem
    → has slash x ≡ false
    → has slash y ≡ false
    → has dot x ≡ false
    → has dot y ≡ false
    → context_path dir (stem ++ dot ∷ x) ≡ context_path dir (stem ++ dot ∷ y)
context_path_shared dir stem x y h sx sy dx dy = rw (
  context_path-name dir (stem ++ dot ∷ x) (dotted-IsName stem x h sx),
  context_path-name dir (stem ++ dot ∷ y) (dotted-IsName stem y h sy),
  file_stem-append stem x h.1 dx,
  file_stem-append stem y h.1 dy,
)

context_path-plain :
    (dir tag : Text)
    → IsName tag
    → has dot tag ≡ false
    → context_path dir tag ≡ dir ++ slash ∷ tag ++ codes ".log"
context_path-plain dir tag h d = rw (context_path-name dir tag h, file_stem-plain tag d)

same_path :
    (dir a b : Text)
    → IsName a
    → IsName b
    → has dot a ≡ false
    → has dot b ≡ false
    → context_path dir a ≡ context_path dir b
    → a ≡ b
same_path dir a b ha hb da db e =
    let joined : slash ∷ a ≡ slash ∷ b = append_cancel_left dir (slash ∷ a) (slash ∷ b) (
      append_cancel_right (dir ++ slash ∷ a) (dir ++ slash ∷ b) (codes ".log")
        (sym (context_path-plain dir a ha da) ∙ e ∙ context_path-plain dir b hb db)) in
    cc

-- Different tags that are plain names without a dot have different files.
context_path-injective :
    (dir a b : Text)
    → IsName a
    → IsName b
    → has dot a ≡ false
    → has dot b ≡ false
    → a ≢ b
    → context_path dir a ≢ context_path dir b
context_path-injective dir a b ha hb da db apart e = apart (same_path dir a b ha hb da db e)

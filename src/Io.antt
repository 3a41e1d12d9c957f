-- ===== src/Io.antt =====
-- The part of std::io and std::fs that the logger writes through: `BufWriter<File>` as the text
-- that it took, and the calls that may fail. How each call ends is the environment's choice: a
-- writer carries the outcomes of its coming calls, and succeeds when none is left.
use paperlog.Base.{ℕ, ◌≡◌, Text, List, [], ◌∷◌, ◌++◌, Option, none, some, take, length}

-- `std::io::Error`, by what it prints.
pub record IoError : Type 0 where
  pub message : Text

-- A call that fails may have passed on a first part of its text.
pub data Outcome : Type 0 where
  done : Outcome
  fails : (kept : ℕ) → IoError → Outcome

pub record OutFile : Type 0 where
  pub text : Text  -- all that was accepted, the buffer included
  pub flushed : ℕ  -- how much of it the last flush that succeeded pushed out
  pub outcomes : List Outcome

-- `std::io::Result<()>` is `none` for `Ok(())`.
abbrev pub IoResult : Type 0
IoResult = Option IoError

write_with : OutFile → Text → List Outcome → OutFile × IoResult
write_with f t [] = (record f { text = f.text ++ t }, none)
write_with f t (done ∷ os) = (record f { text = f.text ++ t; outcomes = os }, none)
write_with f t (fails k e ∷ os) = (record f { text = f.text ++ take k t; outcomes = os }, some e)

-- `write!` of a whole line.
unfoldable pub write_text : OutFile → Text → OutFile × IoResult
unfolding write_with
write_text f t = write_with f t f.outcomes

flush_with : OutFile → List Outcome → OutFile × IoResult
flush_with f [] = (record f { flushed = length f.text }, none)
flush_with f (done ∷ os) = (record f { flushed = length f.text; outcomes = os }, none)
flush_with f (fails k e ∷ os) = (record f { outcomes = os }, some e)

-- `Write::flush`
unfoldable pub flush_file : OutFile → OutFile × IoResult
unfolding flush_with
flush_file f = flush_with f f.outcomes

-- A writer none of whose coming calls fails.
abbrev pub Sound : OutFile → Type 0
Sound f = f.outcomes ≡ []

-- A file fresh from `File::create`.
abbrev pub new_file : List Outcome → OutFile
new_file os = record { text = []; flushed = 0; outcomes = os }

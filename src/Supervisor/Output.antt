-- ===== src/Supervisor/Output.antt =====
-- src/supervisor/output.rs: the level of an output line, and the tail kept for a crash report.
pub mod Tail
use homeassistant_local_voic.Base.{
  ℕ, suc, ◌+◌, Bool, true, false, ◌||◌, Option, none, some, List, [], ◌∷◌, ◌++◌, ◌==◌, any, take,
  length, get_elem?, is_some, if◌then◌else◌,
}
use homeassistant_local_voic.Base.Text.{
  Text, codes, contains, trim_end_matches, is_whitespace, is_empty,
}

abbrev pub tail_lines : ℕ
tail_lines = 30

abbrev pub tail_line_chars : ℕ
tail_line_chars = 500

abbrev pub problem_words : List Text
problem_words =
    codes "error"
    ∷ codes "err ["
    ∷ codes "fail"
    ∷ codes "fatal"
    ∷ codes "abort"
    ∷ codes "assert"
    ∷ codes "exception"
    ∷ codes "panic"
    ∷ codes "segmentation fault"
    ∷ codes "core dumped"
    ∷ codes "terminate called"
    ∷ codes "out of memory"
    ∷ codes "device lost"
    ∷ codes "warn"
    ∷ []

abbrev pub timing_words : List Text
timing_words = codes "eval time" ∷ codes "total time" ∷ []

pub data Level : Type 0 where
  debug info warn : Level

-- The deque, oldest line first.
abbrev pub Tail : Type 0
Tail = List Text

-- `push`: a line of more than 500 characters is cut there and gets an ellipsis.
unfoldable pub cut : Text → Text
cut line =
    if is_some (get_elem? line tail_line_chars)
    then take tail_line_chars line ++ (0x2026 ∷ [])
    else line

abbrev pub pop_front : Tail → Tail
pop_front [] = []
pop_front (l ∷ ls) = ls

unfoldable pub push : Tail → Text → Tail
unfolding cut
push tail line = (if length tail == tail_lines then pop_front tail else tail) ++ (cut line ∷ [])

-- `str::to_lowercase` is std's Unicode table.
module _ (to_lowercase : Text → Text) where
  unfoldable pub level : Text → Level
  unfolding contains
  level line =
      let lower = to_lowercase line in
      if any (contains lower) problem_words
      then warn
      else if any (contains lower) timing_words
      then info
      else debug

  -- The `match level(line)` of `forward`: what it logs, newest last, and the tail.
  log_line : Level → Tail × List (Level × Text) → Text → Tail × List (Level × Text)
  log_line warn (tail, log) line = (tail, log ++ ((warn, line) ∷ []))
  log_line info (tail, log) line = (tail, log ++ ((info, line) ∷ []))
  log_line debug (tail, log) line = (push tail line, log ++ ((debug, line) ∷ []))

  -- One line read from the pipe.
  unfoldable pub forward_line : Tail × List (Level × Text) → Text → Tail × List (Level × Text)
  unfolding log_line
  forward_line s text =
      let line = trim_end_matches is_whitespace text in
      if is_empty line then s else log_line (level line) s line

  unfoldable pub forward : Tail × List (Level × Text) → List Text → Tail × List (Level × Text)
  forward s [] = s
  forward s (text ∷ texts) = forward (forward_line s text) texts

-- The lines that `report` logs as warnings, and the tail after it.
unfoldable pub report : Tail → List Text × Tail
report tail = (tail, [])

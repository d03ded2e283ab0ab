-- ===== src/Supervisor/Output/Tail.antt =====
-- The tail of a run holds the last debug lines, and nothing but debug lines.
use mathlib.Core.List.{append-nil, append_assoc, map-append}
use homeassistant_local_voic.Base.{
  ℕ, suc, ◌-◌, ◌≤◌, ◌≡◌, refl, sym, ◌∙◌, Bool, true, false, List, [], ◌∷◌, ◌++◌, arith, length,
  drop, length-append, length-drop, map, if◌then◌else◌, Bool-cases, ◌==◌, ltb, ltb→lt, inl, inr,
  zero,
}
use homeassistant_local_voic.Base.Text.{Text, trim_end_matches, is_whitespace, is_empty}
use homeassistant_local_voic.Supervisor.Output.{
  Tail, Level, debug, info, warn, tail_lines, cut, push, pop_front, level, forward_line, forward,
}

-- The last `n` elements.
abbrev pub last {ℓ} : {A : Type ℓ} → ℕ → List A → List A
last n xs = drop (length xs - n) xs

drop-append {ℓ} :
    {A : Type ℓ} (k : ℕ) (xs ys : List A) → k ≤ length xs → drop k (xs ++ ys) ≡ drop k xs ++ ys
drop-append zero xs ys h = refl
drop-append (suc k) [] ys h = elim h [ ]
drop-append (suc k) (x ∷ xs) ys h = drop-append k xs ys (omega arith)

pop_front-drop : (k : ℕ) (xs : Tail) → pop_front (drop k xs) ≡ drop (suc k) xs
pop_front-drop zero [] = refl
pop_front-drop zero (x ∷ xs) = refl
pop_front-drop (suc k) [] = refl
pop_front-drop (suc k) (x ∷ xs) = pop_front-drop k xs

-- One more line behind the last 30: the oldest goes if they are 30.
window :
    (xs : Tail) (c : Text)
    → (if length (last tail_lines xs) == tail_lines
          then pop_front (last tail_lines xs)
          else last tail_lines xs)
        ++ c ∷ []
      ≡ last tail_lines (xs ++ c ∷ [])
window xs c = elim (Bool-cases (ltb (length xs) tail_lines)) [
  | inl short ↦
      let few = ltb→lt _ _ short in
      let none_gone : length xs - tail_lines ≡ 0 = omega arith in
      let still : length (xs ++ c ∷ []) - tail_lines ≡ 0 =
        omega (arith, length-append xs (c ∷ [])) in
      rw (none_gone, still) (ground arith)
  | inr full ↦
      let many : tail_lines ≤ length xs = ground arith in
      let k : ℕ = length xs - tail_lines in
      let exact : length (drop k xs) ≡ tail_lines = omega (arith, length-drop k xs) in
      let one_more : length (xs ++ c ∷ []) - tail_lines ≡ suc k =
        omega (arith, length-append xs (c ∷ [])) in
      rw (exact, one_more)
        (rw (pop_front-drop k xs) (sym (drop-append (suc k) xs (c ∷ []) (omega arith))))
]

push-last :
    (seen : List Text) (line : Text)
    → push (last tail_lines (map cut seen)) line ≡ last tail_lines (map cut (seen ++ line ∷ []))
unfolding push
push-last seen line = rw (map-append cut seen (line ∷ [])) (window (map cut seen) (cut line))

abbrev if_debug : Level → Text → List Text
if_debug debug line = line ∷ []
if_debug info line = []
if_debug warn line = []

module _ (to_lowercase : Text → Text) where
  keep : Text → List Text
  keep t =
      let line = trim_end_matches is_whitespace t in
      if is_empty line then [] else if_debug (level to_lowercase line) line

  -- The lines of a pipe that stay for a report: trimmed, not empty, of level debug.
  pub kept : List Text → List Text
  kept [] = []
  kept (t ∷ ts) = keep t ++ kept ts

  forward_line-last :
      (t : Text) (seen : List Text) (tail : Tail) (log : List (Level × Text))
      → tail ≡ last tail_lines (map cut seen)
      → (forward_line to_lowercase (tail, log) t).0 ≡ last tail_lines (map cut (seen ++ keep t))
  unfolding forward_line keep
  forward_line-last t seen tail log h =
      go (is_empty (trim_end_matches is_whitespace t))
        (level to_lowercase (trim_end_matches is_whitespace t)) refl refl
    where
      go :
          (b : Bool) (l : Level)
          → is_empty (trim_end_matches is_whitespace t) ≡ b
          → level to_lowercase (trim_end_matches is_whitespace t) ≡ l
          → (forward_line to_lowercase (tail, log) t).0 ≡ last tail_lines (map cut (seen ++ keep t))
      go true l e q = rw (e, forward_line, keep) (rw append-nil h)
      go false debug e q =
          rw (e, q, forward_line, keep) (rw h (push-last seen (trim_end_matches is_whitespace t)))
      go false info e q = rw (e, q, forward_line, keep) (rw append-nil h)
      go false warn e q = rw (e, q, forward_line, keep) (rw append-nil h)

  forward-last :
      (ts : List Text) (seen : List Text) (s : Tail × List (Level × Text))
      → s.0 ≡ last tail_lines (map cut seen)
      → (forward to_lowercase s ts).0 ≡ last tail_lines (map cut (seen ++ kept ts))
  unfolding forward kept
  forward-last [] seen s h = rw append-nil h
  forward-last (t ∷ ts) seen s h =
      forward-last ts (seen ++ keep t) (forward_line to_lowercase s t)
        (forward_line-last t seen s.0 s.1 h)
      ∙ rw append_assoc

  -- After any output of a run, its tail holds the last 30 debug lines, each cut to 500 characters.
  pub forward_tail :
      (ts : List Text) → (forward to_lowercase ([], []) ts).0 ≡ last tail_lines (map cut (kept ts))
  forward_tail ts = forward-last ts [] ([], []) refl

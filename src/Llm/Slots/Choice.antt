-- ===== src/Llm/Slots/Choice.antt =====
-- Which slot is saved.
use homeassistant_local_voic.Base.{
  ℕ, suc, ◌≡◌, refl, ◌⊎◌, inl, inr, Bool, true, false, Option, none, some, List, [], ◌∷◌, arith,
  any, all, All, get_elem?, not, ◌||◌, Bool-cases, ◌≢◌,
}
use homeassistant_local_voic.Base.Int.{ℤ, pos, negsuc, less}
use homeassistant_local_voic.Base.Result.{Result, ok}
use homeassistant_local_voic.Json.{Value}
use homeassistant_local_voic.Llm.Slots.{
  min_tokens, is_processing, prompt_tokens, task_of, is_newer, pick_from, pick_slot, slot_list,
}

less_trans : (a b c : ℤ) → less a b ≡ false → less b c ≡ false → less a c ≡ false
less_trans (pos a) (pos b) (pos c) h k = ground arith
less_trans (pos a) (pos b) (negsuc c) h k = refl
less_trans (pos a) (negsuc b) (pos c) h k = absurd (ground arith)
less_trans (pos a) (negsuc b) (negsuc c) h k = refl
less_trans (negsuc a) (pos b) (pos c) h k = absurd (ground arith)
less_trans (negsuc a) (pos b) (negsuc c) h k = absurd (ground arith)
less_trans (negsuc a) (negsuc b) (pos c) h k = absurd (ground arith)
less_trans (negsuc a) (negsuc b) (negsuc c) h k = ground arith

less-flip : (a b : ℤ) → less a b ≡ true → less b a ≡ false
less-flip (pos a) (pos b) h = ground arith
less-flip (pos a) (negsuc b) h = absurd (ground arith)
less-flip (negsuc a) (pos b) h = refl
less-flip (negsuc a) (negsuc b) h = ground arith

less-same : (a : ℤ) → less a a ≡ false
less-same (pos a) = ground arith
less-same (negsuc a) = ground arith

-- Below the size of an Assist prompt.
abbrev pub is_small : Value → Bool
is_small slot = less (prompt_tokens slot) min_tokens

-- The slot is `best`, or one of `slots` with an Assist-sized prompt.
abbrev pub Origin : Option Value → List Value → Value → Type 0
Origin best slots s =
    (best ≡ some s) ⊎ ((i : ℕ) × (get_elem? slots i ≡ some s) × (is_small s ≡ false))

abbrev pub Behind : Option Value → Value → Type 0
Behind none s = Unit
Behind (some b) s = less (task_of s) (task_of b) ≡ false

-- No slot runs a request, and of the Assist-sized ones none has a newer task.
pub record Picked (best : Option Value) (slots : List Value) (s : Value) : Type 0 where
  pub idle : any is_processing slots ≡ false
  pub origin : Origin best slots s
  pub newest : All (λ t. (is_small t || not (less (task_of s) (task_of t))) ≡ true) slots
  pub behind : Behind best s

-- Nothing is picked if a slot runs a request or all of them are small.
abbrev pub Pick : Option Value → List Value → Option Value → Type 0
Pick best slots none =
    (any is_processing slots ≡ true) ⊎ ((best ≡ none) × (all is_small slots ≡ true))
Pick best slots (some s) = Picked best slots s

module _ (best : Option Value) (slot : Value) (slots : List Value)
    (h : is_processing slot ≡ false) where
  later :
      {b : Option Value} (s : Value) → b ≡ best → Origin b slots s → Origin best (slot ∷ slots) s
  later s e (inl q) = inl (rw (← e) q)
  later s e (inr (i, at, large)) = inr (suc i, at, large)

  skip_small-Pick :
      is_small slot ≡ true → (o : Option Value) → Pick best slots o → Pick best (slot ∷ slots) o
  skip_small-Pick small none (inl busy) = inl (rw (h, busy) refl)
  skip_small-Pick small none (inr (e, all_small)) = inr (e, rw (small, all_small) refl)
  skip_small-Pick small (some s) p = record {
    idle = rw (h, p.idle) refl;
    origin = later s refl p.origin;
    newest = (rw small refl, p.newest);
    behind = p.behind;
  }

  old-Behind :
      (b : Option Value) (s : Value)
      → is_newer slot b ≡ false
      → Behind b s
      → less (task_of s) (task_of slot) ≡ false
  old-Behind none s old k = absurd (ground arith)
  old-Behind (some b) s old k = less_trans (task_of s) (task_of b) (task_of slot) k old

  new-Behind :
      (b : Option Value) (s : Value)
      → is_newer slot b ≡ true
      → less (task_of s) (task_of slot) ≡ false
      → Behind b s
  new-Behind none s new k = tt
  new-Behind (some b) s new k =
      less_trans (task_of s) (task_of slot) (task_of b) k (less-flip (task_of b) (task_of slot) new)

  old-some : (b : Option Value) → is_newer slot b ≡ false → b ≢ none
  old-some none old = absurd (ground arith)
  old-some (some b) old = λ e. cc

  skip_old-Pick :
      is_newer slot best ≡ false
      → (o : Option Value) → Pick best slots o
      → Pick best (slot ∷ slots) o
  skip_old-Pick old none (inl busy) = inl (rw (h, busy) refl)
  skip_old-Pick old none (inr (e, all_small)) = absurd (old-some best old e)
  skip_old-Pick old (some s) p = record {
    idle = rw (h, p.idle) refl;
    origin = later s refl p.origin;
    newest = (let k = old-Behind best s old p.behind in ground (arith, k), p.newest);
    behind = p.behind;
  }

  taken-Origin :
      (s : Value)
      → is_small slot ≡ false
      → Origin (some slot) slots s
      → Origin best (slot ∷ slots) s
  taken-Origin s large (inl e) = inr (0, e, (let same : slot ≡ s = cc in rw (← same) large))
  taken-Origin s large (inr (i, at, large')) = inr (suc i, at, large')

  take-Pick :
      is_small slot ≡ false
      → is_newer slot best ≡ true
      → (o : Option Value) → Pick (some slot) slots o
      → Pick best (slot ∷ slots) o
  take-Pick large new none (inl busy) = inl (rw (h, busy) refl)
  take-Pick large new none (inr (e, all_small)) = absurd cc
  take-Pick large new (some s) p = record {
    idle = rw (h, p.idle) refl;
    origin = taken-Origin s large p.origin;
    newest = (let k = p.behind in ground (arith, k), p.newest);
    behind = new-Behind best s new p.behind;
  }

pick_from-Pick : (best : Option Value) (slots : List Value) → Pick best slots (pick_from best slots)
unfolding pick_from
pick_from-Pick none [] = inr (refl, refl)
pick_from-Pick (some b) [] = record {
  idle = refl;
  origin = inl refl;
  newest = tt;
  behind = less-same (task_of b);
}
pick_from-Pick best (slot ∷ slots) = elim (Bool-cases (is_processing slot)) [
  | inl busy ↦ rw busy (inl (rw busy refl))
  | inr idle ↦ elim (Bool-cases (is_small slot)) [
    | inl small ↦
        rw (idle, small) (skip_small-Pick best slot slots idle small _ (pick_from-Pick best slots))
    | inr large ↦ elim (Bool-cases (is_newer slot best)) [
      | inl new ↦
          rw (idle, large, new)
            (take-Pick best slot slots idle large new _ (pick_from-Pick (some slot) slots))
      | inr old ↦
          rw (idle, large, old)
            (skip_old-Pick best slot slots idle old _ (pick_from-Pick best slots))
    ]
  ]
]

-- If `/slots` answers a list, `pick_slot` picks nothing exactly when a slot runs a request or all slots
-- are small; what it picks is an Assist-sized slot of the list, no slot of which runs a request or is
-- Assist-sized with a newer task.
pub pick_slot-Pick :
    (answer : Result Value) (slots : List Value)
    → slot_list answer ≡ ok slots
    → (o : Option Value) × (pick_slot answer ≡ ok o) × Pick none slots o
unfolding pick_slot
pick_slot-Pick answer slots h = (pick_from none slots, rw h refl, pick_from-Pick none slots)

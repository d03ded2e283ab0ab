-- ===== src/Llm/Template/Patch.antt =====
-- A patched template is the original with one occurrence replaced.
use homeassistant_local_voic.Base.{
  ℕ, suc, ◌-◌, ◌≡◌, refl, ap, ◌∙◌, true, false, some, [], ◌∷◌, ◌++◌, arith, length, drop,
  Bool-cases, inl, inr,
}
use homeassistant_local_voic.Base.Text.{Text, starts_with}
use homeassistant_local_voic.Config.{Family, ling3, minicpm5, lfm3, qwen35, granite4}
use homeassistant_local_voic.Llm.Template.{
  patch_for, patched, count_matches, replace_first, apply, patch,
}

starts_with-split : (s p : Text) → starts_with s p ≡ true → s ≡ p ++ drop (length p) s
unfolding starts_with
starts_with-split s [] h = refl
starts_with-split [] (p ∷ ps) h = cc
starts_with-split (c ∷ cs) (p ∷ ps) h = ground (arith, starts_with-split cs ps)

count_matches-skip :
    (find xs ys : Text) → count_matches find (length xs) (xs ++ ys) ≡ count_matches find 0 ys
unfolding count_matches
count_matches-skip find [] ys = refl
count_matches-skip find (x ∷ xs) ys = count_matches-skip find xs ys

-- `t` holds `find`, `t'` is `t` with `replace` in its place, and `n` matches follow it.
pub record Replaced (find replace t t' : Text) (n : ℕ) : Type 0 where
  pub before : Text
  pub after : Text
  pub was : t ≡ before ++ (find ++ after)
  pub is : t' ≡ before ++ (replace ++ after)
  pub first : count_matches find 0 t ≡ suc n
  pub others : count_matches find 0 after ≡ n

Replaced-cons :
    (c : ℕ) (find replace t t' : Text) (n : ℕ)
    → starts_with (c ∷ t) find ≡ false
    → Replaced find replace t t' n
    → Replaced find replace (c ∷ t) (c ∷ t') n
unfolding count_matches
Replaced-cons c find replace t t' n h r = record {
  before = c ∷ r.before;
  after = r.after;
  was = ap (◌∷◌ c) r.was;
  is = ap (◌∷◌ c) r.is;
  first = rw (h, count_matches) r.first;
  others = r.others;
}

count_matches-here :
    (c f : ℕ) (fs cs : Text)
    → starts_with (c ∷ cs) (f ∷ fs) ≡ true
    → count_matches (f ∷ fs) 0 (c ∷ cs) ≡ suc (count_matches (f ∷ fs) 0 (drop (length fs) cs))
unfolding count_matches
count_matches-here c f fs cs hit =
    let one : suc (length fs) - 1 ≡ length fs = omega arith in
    let tail : cs ≡ fs ++ drop (length fs) cs =
      starts_with-split cs fs (unfold starts_with in ground arith) in
    rw (hit, count_matches)
      (rw one (
        ap suc (
          ap (count_matches (f ∷ fs) (length fs)) tail
          ∙ count_matches-skip (f ∷ fs) fs (drop (length fs) cs))))

Replaced-here :
    (c f : ℕ) (fs replace cs : Text) (n : ℕ)
    → starts_with (c ∷ cs) (f ∷ fs) ≡ true
    → count_matches (f ∷ fs) 0 (c ∷ cs) ≡ suc n
    → Replaced (f ∷ fs) replace (c ∷ cs) (replace_first (f ∷ fs) replace (c ∷ cs)) n
unfolding replace_first
Replaced-here c f fs replace cs n hit h = record {
  before = [];
  after = drop (length fs) cs;
  was = starts_with-split (c ∷ cs) (f ∷ fs) hit;
  is = rw (hit, replace_first);
  first = h;
  others = omega (arith, count_matches-here c f fs cs hit);
}

replace_first-Replaced :
    (f : ℕ) (fs replace t : Text) (n : ℕ)
    → count_matches (f ∷ fs) 0 t ≡ suc n
    → Replaced (f ∷ fs) replace t (replace_first (f ∷ fs) replace t) n
unfolding count_matches replace_first
replace_first-Replaced f fs replace [] n h = absurd (omega arith)
replace_first-Replaced f fs replace (c ∷ cs) n h =
    elim (Bool-cases (starts_with (c ∷ cs) (f ∷ fs))) [
      | inl hit ↦ Replaced-here c f fs replace cs n hit h
      | inr miss ↦
          rw (miss, replace_first)
            (Replaced-cons c (f ∷ fs) replace cs _ n miss
              (replace_first-Replaced f fs replace cs n (rw (miss, count_matches) at h)))
    ]

apply-Replaced :
    (f : ℕ) (fs replace t t' : Text)
    → apply (f ∷ fs) replace t ≡ patched t'
    → Replaced (f ∷ fs) replace t t' 0
unfolding apply
apply-Replaced f fs replace t t' h =
    let same : replace_first (f ∷ fs) replace t ≡ t' = ground arith in
    rw (← same) (replace_first-Replaced f fs replace t 0 (ground arith))

-- Where a template is patched, it is the original with the line of its family replaced at one
-- place, and no other match of that line is left behind it.
pub patch-Replaced :
    (family : Family) (t t' : Text)
    → patch family t ≡ patched t'
    → (find : Text) × (replace : Text) × (patch_for family ≡ some (find, replace))
      × Replaced find replace t t' 0
unfolding patch patch_for
patch-Replaced ling3 t t' h = (_, _, refl, apply-Replaced _ _ _ t t' h)
patch-Replaced minicpm5 t t' h = (_, _, refl, apply-Replaced _ _ _ t t' h)
patch-Replaced lfm3 t t' h = (_, _, refl, apply-Replaced _ _ _ t t' h)
patch-Replaced qwen35 t t' h = cc
patch-Replaced granite4 t t' h = cc

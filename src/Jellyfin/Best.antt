-- ===== src/Jellyfin/Best.antt =====
-- The best of several titles.
use homeassistant_local_voic.Base.{
  ℕ, zero, suc, ◌≡◌, refl, sym, ap, ◌∙◌, ◌⊎◌, inl, inr, Bool, true, false, Option, none, some, List,
  [], ◌∷◌, All, get_elem?, Option-cases, if◌then◌else◌,
}
use homeassistant_local_voic.Base.Text.{
  Text, less_text, less_text_refl, less_text_trans, less_text_asym,
}
use homeassistant_local_voic.Jellyfin.{
  Item, Score, score, score_rank, tie_key, better, min_from, item_of, match_key, best_match,
}
use homeassistant_local_voic.Jellyfin.Order.{Preferred, tie_key-Preferred}

-- An item that has a key, where the key is known.
abbrev Keyed : (Item → Option (List ℕ)) → List Item → List ℕ → Item → Type 0
Keyed key items k i = (n : ℕ) × (get_elem? items n ≡ some i) × (key i ≡ some k)

-- No item has a lower key.
abbrev NoneBelow : (Item → Option (List ℕ)) → List ℕ → List Item → Type 0
NoneBelow key k = All (λ i. (k' : List ℕ) → key i ≡ some k' → less_text k' k ≡ false)

abbrev Unmatched : (Item → Option (List ℕ)) → List Item → Type 0
Unmatched key = All (λ i. key i ≡ none)

-- What the search makes of the best so far.
abbrev Least :
    (Item → Option (List ℕ)) → List Item → Option (List ℕ × Item) → Option (List ℕ × Item) → Type 0
Least key items none none = Unmatched key items
Least key items (some b) none = ⊥
Least key items none (some (k, i)) = Keyed key items k i × NoneBelow key k items
Least key items (some (k', j)) (some (k, i)) =
    (((k' ≡ k) × (j ≡ i)) ⊎ Keyed key items k i) × (less_text k' k ≡ false) × NoneBelow key k items

module _ (key : Item → Option (List ℕ)) where
  further :
      (x : Item) (items : List Item) (k : List ℕ) (i : Item)
      → Keyed key items k i
      → Keyed key (x ∷ items) k i
  further x items k i (n, at, q) = (suc n, at, q)

  -- What holds of an item holds of its key.
  of_key :
      (x : Item) (k k0 : List ℕ)
      → key x ≡ some k0
      → less_text k0 k ≡ false
      → (k' : List ℕ) → key x ≡ some k'
      → less_text k' k ≡ false
  of_key x k k0 q h k' q' =
      let one : some k0 ≡ some k' = sym q ∙ q' in let same : k0 ≡ k' = cc in rw (← same) h

  none_here : (x : Item) (k k' : List ℕ) → key x ≡ none → key x ≡ some k' → less_text k' k ≡ false
  none_here x k k' q q' = absurd (let bad = sym q ∙ q' in cc)

  pass :
      (x : Item) (items : List Item) (best r : Option (List ℕ × Item))
      → key x ≡ none
      → Least key items best r
      → Least key (x ∷ items) best r
  pass x items none none q a = (q, a)
  pass x items none (some (k, i)) q (at, a) =
      (further x items k i at, ((λ k' q'. none_here x k k' q q'), a))
  pass x items (some b) none q a = a
  pass x items (some (k0, j)) (some (k, i)) q (inl same, h, a) =
      (inl same, h, ((λ k' q'. none_here x k k' q q'), a))
  pass x items (some (k0, j)) (some (k, i)) q (inr at, h, a) =
      (inr (further x items k i at), h, ((λ k' q'. none_here x k k' q q'), a))

  -- The item `x` became the best.
  take_it :
      (x : Item) (items : List Item) (k0 k : List ℕ) (i : Item)
      → key x ≡ some k0
      → Least key items (some (k0, x)) (some (k, i))
      → Keyed key (x ∷ items) k i × NoneBelow key k (x ∷ items)
  take_it x items k0 k i q (inl (same_key, same), h, a) =
      ((zero, ap some same, ap key (sym same) ∙ q ∙ ap some same_key), (of_key x k k0 q h, a))
  take_it x items k0 k i q (inr at, h, a) = (further x items k i at, (of_key x k k0 q h, a))

  step :
      (x : Item) (items : List Item) (k0 k1 : List ℕ) (j : Item) (b : Bool)
      → key x ≡ some k0
      → less_text k0 k1 ≡ b
      → (r : Option (List ℕ × Item)) → Least key items (if b then some (k0, x) else some (k1, j)) r
      → Least key (x ∷ items) (some (k1, j)) r
  step x items k0 k1 j true q l none a = a
  step x items k0 k1 j false q l none a = a
  step x items k0 k1 j true q l (some (k, i)) (was, h, a) =
      let (at, below) = take_it x items k0 k i q (was, h, a) in
      (inr at, less_text_trans k k0 k1 h (less_text_asym k0 k1 l), below)
  step x items k0 k1 j false q l (some (k, i)) (inl same, h, a) =
      (inl same, h, (of_key x k k0 q (less_text_trans k k1 k0 h l), a))
  step x items k0 k1 j false q l (some (k, i)) (inr at, h, a) =
      (inr (further x items k i at), h, (of_key x k k0 q (less_text_trans k k1 k0 h l), a))

  first_one :
      (x : Item) (items : List Item) (k0 : List ℕ) (r : Option (List ℕ × Item))
      → key x ≡ some k0
      → Least key items (some (k0, x)) r
      → Least key (x ∷ items) none r
  first_one x items k0 none q a = absurd a
  first_one x items k0 (some (k, i)) q a = take_it x items k0 k i q a

  min_from-Least :
      (best : Option (List ℕ × Item)) (items : List Item)
      → Least key items best (min_from key best items)
  unfolding min_from better
  min_from-Least none [] = tt
  min_from-Least (some (k, i)) [] = (inl (refl, refl), less_text_refl k, tt)
  min_from-Least best (x ∷ items) = go best (key x) refl (λ b. min_from-Least b items)
    where
      go :
          (best : Option (List ℕ × Item)) (o : Option (List ℕ))
          → key x ≡ o
          → ((b : Option (List ℕ × Item)) → Least key items b (min_from key b items))
          → Least key (x ∷ items) best (min_from key (better best o x) items)
      go best none q ih = pass x items best _ q (ih best)
      go none (some k0) q ih = first_one x items k0 _ q (ih (some (k0, x)))
      go (some (k1, j)) (some k0) q ih =
          step x items k0 k1 j (less_text k0 k1) q refl _
            (ih (if less_text k0 k1 then some (k0, x) else some (k1, j)))

All-imp :
    {P Q : Item → Type 0}
    → ((i : Item) → P i → Q i)
    → (items : List Item) → All P items
    → All Q items
All-imp f [] a = tt
All-imp f (i ∷ is) (p, a) = (f i p, All-imp f is a)

module _ (to_lowercase : Text → Text) (is_alphanumeric : ℕ → Bool) (query : Text) where
  abbrev score_of : Item → Option Score
  score_of i = score to_lowercase is_alphanumeric query i.name

  abbrev key_of : Item → Option (List ℕ)
  key_of = match_key to_lowercase is_alphanumeric query

  -- Nothing, where no title matches; or a title of the library that matches, where none that matches is
  -- preferred to it.
  abbrev pub Best : List Item → Option Item → Type 0
  Best library none = All (λ j. score_of j ≡ none) library
  Best library (some i) =
      (n : ℕ) × (s : Score) × (get_elem? library n ≡ some i)
      × (score_of i ≡ some s)
      × All (λ j. (t : Score) → score_of j ≡ some t → ¬ (Preferred t j s i)) library

  key_of-scored :
      (j : Item) (t : Score) → score_of j ≡ some t → key_of j ≡ some (score_rank t ∷ tie_key j)
  unfolding match_key
  key_of-scored j t q = rw (match_key, q) refl

  unscored : (j : Item) → key_of j ≡ none → score_of j ≡ none
  unscored j q = elim (Option-cases (score_of j)) [
    | inl nothing ↦ nothing
    | inr (t, p) ↦ absurd (let bad = sym q ∙ key_of-scored j t p in cc)
  ]

  scored :
      (i : Item) (k : List ℕ)
      → key_of i ≡ some k
      → (s : Score) × (score_of i ≡ some s) × (k ≡ score_rank s ∷ tie_key i)
  unfolding match_key
  scored i k q = elim (Option-cases (score_of i)) [
    | inl nothing ↦
        let no_key : key_of i ≡ none = rw (match_key, nothing) refl in
        absurd (let bad = sym q ∙ no_key in cc)
    | inr (s, p) ↦ (s, p, let both = sym q ∙ key_of-scored i s p in cc)
  ]

  -- `best_match` finds nothing exactly if no title of the library matches the words; otherwise it finds a
  -- title of the library that matches, and none that matches is preferred to it: the whole title before
  -- its main part before mere words of it, then series before others, unwatched before watched, and the
  -- earlier year, an unknown one last.
  pub best_match-Best :
      (library : List Item) → Best library (best_match to_lowercase is_alphanumeric query library)
  unfolding best_match
  best_match-Best library = go (min_from key_of none library) (min_from-Least key_of none library)
    where
      go : (r : Option (List ℕ × Item)) → Least key_of library none r → Best library (item_of r)
      go none a = All-imp unscored library a
      go (some (k, i)) ((n, there, q), a) =
          let (s, matches, keyed) = scored i k q in
          (
            n,
            s,
            there,
            matches,
            All-imp
                (λ j below t p preferred.
                  let lower = below (score_rank t ∷ tie_key j) (key_of-scored j t p) in
                  let higher = tie_key-Preferred t j s i preferred in
                  let higher' : less_text (score_rank t ∷ tie_key j) k ≡ true = rw keyed higher in
                  let bad = sym lower ∙ higher' in cc)
                library a,
          )

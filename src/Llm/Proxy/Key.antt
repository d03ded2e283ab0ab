-- ===== src/Llm/Proxy/Key.antt =====
-- Which requests carry the key.
use homeassistant_local_voic.Base.{
  ℕ, ◌≤◌, ◌<◌, ◌≡◌, ◌≢◌, ◌↔◌, refl, sym, ap, ◌∙◌, ◌⊎◌, inl, inr, true, Option, none, some, List, [],
  ◌∷◌, ◌++◌, All, all, arith, Bool-cases, not_both, and-eq_true, leb, ltb, ◌==◌, ◌&&◌, ◌||◌,
}
use homeassistant_local_voic.Base.Text.{Text, codes, text_eq, text_eq_iff, strip_prefix, trim}
use homeassistant_local_voic.Llm.Proxy.{
  authorization, Headers, LlmProxy, header_value, bearer, token, is_key, authorized,
}

-- A character that the text of a header may have.
abbrev pub IsVisible : ℕ → Type 0
IsVisible b = ((32 ≤ b) × (b < 127)) ⊎ (b ≡ 9)

-- The first Authorization header is `Bearer ` and the key, with white space around the key at most.
abbrev pub CarriesKey : Text → Headers → Type 0
CarriesKey key headers =
    (front : Headers) × (back : Headers) × (v : List ℕ) × (t : Text) × (headers
      ≡ front ++ ((codes "authorization", v) ∷ back))
    × All (λ h. h.0 ≢ codes "authorization") front
    × All IsVisible v
    × (v ≡ codes "Bearer " ++ t)
    × (trim t ≡ key)

header_value-found :
    (hs : Headers) (v : List ℕ)
    → header_value hs authorization ≡ some v
    → (front : Headers) × (back : Headers) × (hs ≡ front ++ ((authorization, v) ∷ back))
      × All (λ h. h.0 ≢ authorization) front
unfolding header_value
header_value-found [] v q = cc
header_value-found ((n, w) ∷ rest) v q = elim (Bool-cases (text_eq n authorization)) [
  | inl is ↦
      let found : some w ≡ some v = rw (header_value, is) at q in
      let name = (text_eq_iff n authorization).0 is in ([], rest, cc, tt)
  | inr other ↦
      let further : header_value rest authorization ≡ some v = rw (header_value, other) at q in
      let (front, back, whole, differ) = header_value-found rest v further in
      (
        (n, w) ∷ front,
        back,
        ap (◌∷◌ (n, w)) whole,
        ((λ e. not_both ((text_eq_iff n authorization).1 e) other), differ),
      )
]

header_value-first :
    (front back : Headers) (v : List ℕ)
    → All (λ h. h.0 ≢ authorization) front
    → header_value (front ++ ((authorization, v) ∷ back)) authorization ≡ some v
unfolding header_value text_eq
header_value-first [] back v differ = refl
header_value-first (h ∷ front) back v differ = elim (Bool-cases (text_eq h.0 authorization)) [
  | inl is ↦ absurd (differ.0 ((text_eq_iff h.0 authorization).0 is))
  | inr other ↦ rw (header_value, other) (header_value-first front back v differ.1)
]

all-IsVisible :
    (v : List ℕ) → (all (λ b. (leb 32 b && ltb b 127) || (b == 9)) v ≡ true) ↔ All IsVisible v
all-IsVisible [] = (λ h. tt, λ h. refl)
all-IsVisible (b ∷ v) = (
  (λ h.
      let (first, rest) = and-eq_true ((leb 32 b && ltb b 127) || (b == 9)) _ h in
      (ground arith, (all-IsVisible v).0 rest)),
  λ h. let rest = (all-IsVisible v).1 h.1 in let first = h.0 in rw rest (ground arith),
)

strip_prefix-some : (p s t : Text) → (strip_prefix p s ≡ some t) ↔ (s ≡ p ++ t)
unfolding strip_prefix
strip_prefix-some [] s t = (λ h. cc, λ h. cc)
strip_prefix-some (x ∷ p) [] t = (λ h. cc, λ h. cc)
strip_prefix-some (x ∷ p) (y ∷ s) t = let rest = strip_prefix-some p s t in ground arith

bearer-some :
    (v : List ℕ) (t : Text) → (bearer v ≡ some t) ↔ (All IsVisible v × (v ≡ codes "Bearer " ++ t))
unfolding bearer
bearer-some v t = elim (Bool-cases (all (λ b. (leb 32 b && ltb b 127) || (b == 9)) v)) [
  | inl visible ↦
      rw (bearer, visible)
        (
          (λ h. ((all-IsVisible v).0 visible, (strip_prefix-some (codes "Bearer ") v t).0 h)),
          λ h. (strip_prefix-some (codes "Bearer ") v t).1 h.1,
        )
  | inr other ↦
      rw (bearer, other) ((λ h. cc), λ h. absurd (not_both ((all-IsVisible v).1 h.0) other))
]

is_key-some :
    (key : Text) (o : Option Text)
    → is_key key o ≡ true
    → (t : Text) × (o ≡ some t) × (trim t ≡ key)
unfolding is_key
is_key-some key none h = cc
is_key-some key (some t) h = (t, refl, (text_eq_iff (trim t) key).0 h)

token-some :
    (hs : Headers) (t : Text)
    → token hs ≡ some t
    → (v : List ℕ) × (header_value hs authorization ≡ some v) × (bearer v ≡ some t)
unfolding token
token-some hs t h = go (header_value hs authorization) refl h
  where
    go :
        (o : Option (List ℕ))
        → header_value hs authorization ≡ o
        → elim o [ none ↦ none | some v ↦ bearer v ] ≡ some t
        → (v : List ℕ) × (header_value hs authorization ≡ some v) × (bearer v ≡ some t)
    go none p q = cc
    go (some v) p q = (v, p, q)

-- The key is accepted exactly from a request that carries it.
is_key-CarriesKey : (key : Text) (hs : Headers) → (is_key key (token hs) ≡ true) ↔ CarriesKey key hs
unfolding is_key token
is_key-CarriesKey key hs = (
  (λ h.
      let (t, some_token, is) = is_key-some key (token hs) h in
      let (v, first, borne) = token-some hs t some_token in
      let (front, back, whole, differ) = header_value-found hs v first in
      let (visible, begins) = (bearer-some v t).0 borne in
      (front, back, v, t, whole, differ, visible, begins, is)),
  λ (front, back, v, t, whole, differ, visible, begins, is).
      let first : header_value hs authorization ≡ some v =
        rw whole (header_value-first front back v differ) in
      let borne = (bearer-some v t).1 (visible, begins) in
      let given : token hs ≡ some t = rw (token, first) borne in
      rw given ((text_eq_iff (trim t) key).1 is),
)

-- The key is not set, or the request carries it.
abbrev pub HasAccess : LlmProxy → Headers → Type 0
HasAccess p headers =
    (p.api_key ≡ none) ⊎ ((key : Text) × (p.api_key ≡ some key) × CarriesKey key headers)

pub authorized-HasAccess :
    (p : LlmProxy) (headers : Headers) → (authorized p headers ≡ true) ↔ HasAccess p headers
unfolding authorized
authorized-HasAccess p headers = go p.api_key refl
  where
    go : (k : Option Text) → p.api_key ≡ k → (authorized p headers ≡ true) ↔ HasAccess p headers
    go none q = ((λ h. inl q), λ h. rw (authorized, q) refl)
    go (some key) q =
        let accepted = is_key-CarriesKey key headers in
        (
          (λ h.
              let good : is_key key (token headers) ≡ true = rw (authorized, q) at h in
              inr (key, q, accepted.0 good)),
          λ access. elim access [
            | inl open_to ↦ absurd (let bad = sym q ∙ open_to in cc)
            | inr (other, p', carries) ↦
                let same : other ≡ key = let both = sym p' ∙ q in cc in
                let carried : CarriesKey key headers = rw same at carries in
                rw (authorized, q) (accepted.1 carried)
          ],
        )

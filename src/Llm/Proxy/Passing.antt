-- ===== src/Llm/Proxy/Passing.antt =====
-- The headers that the proxy passes on.
use homeassistant_local_voic.Base.{
  ℕ, ◌≡◌, ◌≢◌, ◌↔◌, refl, sym, ◌∙◌, inl, inr, Bool, true, false, List, [], ◌∷◌, All, Bool-cases,
  not_both, not,
}
use homeassistant_local_voic.Base.Text.{Text, codes, text_eq, text_eq_iff, text_mem}
use homeassistant_local_voic.Llm.Proxy.{
  authorization, Headers, keep_header, kept_headers, returned_headers,
}

abbrev pub Header : Type 0
Header = Text × List ℕ

-- The headers of one connection, by RFC 9110, and those that a client of HTTP sets itself.
abbrev pub connection_headers : List Text
connection_headers =
    codes "connection"
    ∷ codes "keep-alive"
    ∷ codes "proxy-connection"
    ∷ codes "transfer-encoding"
    ∷ codes "te"
    ∷ codes "trailer"
    ∷ codes "upgrade"
    ∷ codes "host"
    ∷ codes "content-length"
    ∷ []

abbrev pub IsEndToEnd : Header → Type 0
IsEndToEnd h = All (λ n. n ≢ h.0) connection_headers

-- What the backend may see of a request's headers.
abbrev pub IsPassed : Header → Type 0
IsPassed h = IsEndToEnd h × (h.0 ≢ codes "authorization")

-- The second list holds the headers of the first that have `P`, in their order.
pub data Selects (P : Header → Type 0) : Headers → Headers → Type 0 where
  none_left : Selects P [] []
  kept : {h : Header} {hs ks : Headers} → P h → Selects P hs ks → Selects P (h ∷ hs) (h ∷ ks)
  left_out : {h : Header} {hs ks : Headers} → ¬ P h → Selects P hs ks → Selects P (h ∷ hs) ks

text_mem-All : (n : Text) (names : List Text) → (text_mem n names ≡ false) ↔ All (λ m. m ≢ n) names
text_mem-All n [] = (λ h. tt, λ h. refl)
text_mem-All n (m ∷ names) = elim (Bool-cases (text_eq m n)) [
  | inl same ↦ rw same ((λ h. cc), λ h. absurd (h.0 ((text_eq_iff m n).0 same)))
  | inr other ↦ rw other (
    (λ h. ((λ e. let bad = sym other ∙ (text_eq_iff m n).1 e in cc), (text_mem-All n names).0 h)),
    λ h. (text_mem-All n names).1 h.1,
  )
]

not-true : (b : Bool) → not b ≡ true → b ≡ false
not-true true h = cc
not-true false h = refl

not-false : (b : Bool) → not b ≡ false → b ≡ true
not-false true h = refl
not-false false h = cc

end_to_end : (h : Header) → (keep_header h.0 ≡ true) ↔ IsEndToEnd h
unfolding keep_header
end_to_end h = (
  (λ q. (text_mem-All h.0 connection_headers).0 (not-true _ q)),
  λ q. rw ((text_mem-All h.0 connection_headers).1 q) refl,
)

not_kept : (h : Header) → keep_header h.0 ≡ false → ¬ IsEndToEnd h
not_kept h q all_differ = not_both ((end_to_end h).1 all_differ) q

pub kept_headers-Selects : (hs : Headers) → Selects IsPassed hs (kept_headers hs)
unfolding kept_headers
kept_headers-Selects [] = none_left
kept_headers-Selects (h ∷ rest) = elim (Bool-cases (keep_header h.0)) [
  | inr drops ↦
      rw (kept_headers, drops)
        (left_out (λ passed. not_kept h drops passed.0) (kept_headers-Selects rest))
  | inl keeps ↦ elim (Bool-cases (text_eq h.0 authorization)) [
    | inl is ↦
        rw (kept_headers, keeps, is)
          (left_out (λ passed. passed.1 ((text_eq_iff h.0 authorization).0 is))
            (kept_headers-Selects rest))
    | inr other ↦
        rw (kept_headers, keeps, other)
          (kept ((end_to_end h).0 keeps, λ e. not_both ((text_eq_iff h.0 authorization).1 e) other)
            (kept_headers-Selects rest))
  ]
]

pub returned_headers-Selects : (hs : Headers) → Selects IsEndToEnd hs (returned_headers hs)
unfolding returned_headers
returned_headers-Selects [] = none_left
returned_headers-Selects (h ∷ rest) = elim (Bool-cases (keep_header h.0)) [
  | inl keeps ↦
      rw (returned_headers, keeps) (kept ((end_to_end h).0 keeps) (returned_headers-Selects rest))
  | inr drops ↦
      rw (returned_headers, drops) (left_out (not_kept h drops) (returned_headers-Selects rest))
]

-- ===== src/Mcp/Replies.antt =====
-- Which message gets which reply, and which searches it makes.
use homeassistant_local_voic.Base.{
  ℕ, ◌≤◌, ◌≡◌, refl, ◌⊎◌, inl, inr, Bool, true, false, Option, none, some, List, [], ◌∷◌, arith,
  if◌then◌else◌,
}
use homeassistant_local_voic.Base.Text.{
  Text, codes, text_eq, text_eq_iff, text_eq_sym, text_mem, trim, is_empty,
}
use homeassistant_local_voic.Base.Result.{Result}
use homeassistant_local_voic.Json.{Value, at, as_str, as_u64}
use homeassistant_local_voic.Search.{Results, with_year}
use homeassistant_local_voic.Mcp.{
  Tools, call_with, Asked, succeeded, not_found, call_tool, answer, id_of, handle, count_of,
  text_or, web_search,
}

abbrev pub methods : List Text
methods = codes "initialize" ∷ codes "ping" ∷ codes "tools/list" ∷ codes "tools/call" ∷ []

abbrev pub method_of : Value → Option Text
method_of msg = as_str (at msg (codes "method"))

module _ (t : Tools) where
  pub data Searched (args : Value) : Asked → Type 0 where
    nothing : Searched args []
    once :
        (search : Text → ℕ → Result Results) (count : ℕ)
        → t.backend ≡ some search
        → is_empty (trim (text_or (at args (codes "query")))) ≡ false
        → 1 ≤ count
        → count ≤ 5
        → Searched args
            ((with_year t.matchers (trim (text_or (at args (codes "query")))) t.year, count) ∷ [])

  count_of_bounds : (n : Option ℕ) → (1 ≤ count_of n) × (count_of n ≤ 5)
  count_of_bounds none = (omega arith, omega arith)
  count_of_bounds (some n) = (omega arith, omega arith)

  pick-Searched :
      (args : Value) (b : Bool) (x y : Value × Asked)
      → (b ≡ true → Searched args x.1)
      → (b ≡ false → Searched args y.1)
      → Searched args (if b then x else y).1
  pick-Searched args true x y p q = p refl
  pick-Searched args false x y p q = q refl

  web_search-Searched :
      (search : Text → ℕ → Result Results) (args : Value)
      → t.backend ≡ some search
      → Searched args (web_search t search args).1
  unfolding web_search
  web_search-Searched search args q =
      let (low, high) = count_of_bounds (as_u64 (at args (codes "max_results"))) in
      pick-Searched args (is_empty (trim (text_or (at args (codes "query"))))) _ _
        (λ empty. nothing)
        (λ asks. once search (count_of (as_u64 (at args (codes "max_results")))) q asks low high)

  call_tool-Searched : (name : Text) (args : Value) → Searched args (call_tool t name args).1
  unfolding call_tool
  call_tool-Searched name args = go t.backend refl
    where
      go :
          (b : Option (Text → ℕ → Result Results))
          → t.backend ≡ b
          → Searched args (call_with t name args b).1
      go none q = nothing
      go (some backend) q =
          pick-Searched args (text_eq name (codes "web_search")) _ _
            (λ same. web_search-Searched backend args q) (λ other. nothing)

  abbrev pub RepliesTo : Text → Value → Value → Type 0
  RepliesTo method id reply =
      ((text_mem method methods ≡ true) × (result : Value) × (reply ≡ succeeded id result))
      ⊎ ((text_mem method methods ≡ false) × (reply ≡ not_found id method))

  abbrev pub MaySearch : Text → Value → Asked → Type 0
  MaySearch method params asked =
      (asked ≡ [])
      ⊎ ((method ≡ codes "tools/call") × Searched (at params (codes "arguments")) asked)

  pub data Handled (msg : Value) : Option (Value × Asked) → Type 0 where
    silent : (method_of msg ≡ none) ⊎ (id_of msg ≡ none) → Handled msg none
    replied :
        (method : Text) (id reply : Value) (asked : Asked)
        → method_of msg ≡ some method
        → id_of msg ≡ some id
        → RepliesTo method id reply
        → MaySearch method (at msg (codes "params")) asked
        → Handled msg (some (reply, asked))

  abbrev Right : Text → Value → Value → Value × Asked → Type 0
  Right method id params r = RepliesTo method id r.0 × MaySearch method params r.1

  pick-Right :
      (method : Text) (id params : Value) (b : Bool) (x y : Value × Asked)
      → (b ≡ true → Right method id params x)
      → (b ≡ false → Right method id params y)
      → Right method id params (if b then x else y)
  pick-Right method id params true x y p q = p refl
  pick-Right method id params false x y p q = q refl

  answer-Right :
      (method : Text) (id params : Value) → Right method id params (answer t method id params)
  unfolding answer
  answer-Right method id params =
      pick-Right method id params (text_eq method (codes "initialize")) _ _
        (λ e. (inl (known_method (codes "initialize") e refl, _, refl), inl refl))
        (λ e.
          pick-Right method id params (text_eq method (codes "ping")) _ _
            (λ f. (inl (known_method (codes "ping") f refl, _, refl), inl refl))
            (λ f.
              pick-Right method id params (text_eq method (codes "tools/list")) _ _
                (λ g. (inl (known_method (codes "tools/list") g refl, _, refl), inl refl))
                (λ g.
                  pick-Right method id params (text_eq method (codes "tools/call")) _ _
                    (λ h. (
                      inl (known_method (codes "tools/call") h refl, _, refl),
                      inr ((text_eq_iff method (codes "tools/call")).0 h, call_tool-Searched _ _),
                    ))
                    (λ h. (inr (other_method e f g h, refl), inl refl)))))
    where
      known_method :
          (name : Text)
          → text_eq method name ≡ true
          → text_mem name methods ≡ true
          → text_mem method methods ≡ true
      known_method name e k = let same = (text_eq_iff method name).0 e in rw same k

      other_method :
          text_eq method (codes "initialize") ≡ false
          → text_eq method (codes "ping") ≡ false
          → text_eq method (codes "tools/list") ≡ false
          → text_eq method (codes "tools/call") ≡ false
          → text_mem method methods ≡ false
      other_method e f g h =
          let not_one = text_eq_sym method (codes "initialize") e in
          let not_two = text_eq_sym method (codes "ping") f in
          let not_three = text_eq_sym method (codes "tools/list") g in
          rw (not_one, not_two, not_three, text_eq_sym method (codes "tools/call") h) refl

  -- A message without a method or an ID gets no reply. Every other one gets a reply with its ID: a
  -- result if its method is one of the four, else an error. Only a call of a tool makes a search, at most one,
  -- for a query that is not empty, and for one to five results.
  pub handle-Handled : (msg : Value) → Handled msg (handle t msg)
  unfolding handle
  handle-Handled msg = go (method_of msg) refl (id_of msg) refl
    where
      go :
          (m : Option Text)
          → method_of msg ≡ m
          → (i : Option Value) → id_of msg ≡ i
          → Handled msg (elim m [
            | none ↦ none
            | some method ↦ elim i [
              | none ↦ none
              | some id ↦ some (answer t method id (at msg (codes "params")))
            ]
          ])
      go none p i q = silent (inl p)
      go (some method) p none q = silent (inr q)
      go (some method) p (some id) q =
          let (right, may) = answer-Right method id (at msg (codes "params")) in
          replied method id _ _ p q right may

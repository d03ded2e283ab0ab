-- ===== src/Server/Batches.antt =====
-- The replies to a body of messages.
use mathlib.Core.Path.{subst}
use homeassistant_local_voic.Base.{
  ℕ, ◌≡◌, refl, sym, ap, ◌∙◌, ◌⊎◌, inl, inr, Option, none, some, List, [], ◌∷◌, map,
}
use homeassistant_local_voic.Base.Text.{Text, codes, text_eq}
use homeassistant_local_voic.Json
use homeassistant_local_voic.Json.{Value, Serde, at, of_list, to_list}
use homeassistant_local_voic.Mcp
use homeassistant_local_voic.Mcp.{Tools, Asked, id_of, succeeded, not_found}
use homeassistant_local_voic.Mcp.Replies.{
  RepliesTo, Handled, silent, replied, method_of, handle-Handled,
}
use homeassistant_local_voic.Server.{
  Reply, with_reply, handle_each, messages_of, batch_body, posted, post_message, mcp,
}

-- The IDs of the requests among messages: what has a method and an ID.
abbrev pub request_ids : List Value → List Value
request_ids [] = []
request_ids (m ∷ ms) = elim (method_of m) [
  | none ↦ request_ids ms
  | some method ↦ elim (id_of m) [ none ↦ request_ids ms | some id ↦ id ∷ request_ids ms ]
]

abbrev reply_id : Value → Value
reply_id r = at r (codes "id")

ids_with : Option Text → Option Value → List Value → List Value
ids_with none i rest = rest
ids_with (some method) none rest = rest
ids_with (some method) (some id) rest = id ∷ rest

request_ids-with :
    (m : Value) (ms : List Value)
    → request_ids (m ∷ ms) ≡ ids_with (method_of m) (id_of m) (request_ids ms)
unfolding ids_with
request_ids-with m ms = go (method_of m) (id_of m)
  where
    go :
        (method : Option Text) (i : Option Value)
        → (elim method [
          | none ↦ request_ids ms
          | some name ↦ elim i [ none ↦ request_ids ms | some id ↦ id ∷ request_ids ms ]
        ])
          ≡ ids_with method i (request_ids ms)
    go none i = refl
    go (some name) none = refl
    go (some name) (some id) = refl

without_id : (method : Option Text) (rest : List Value) → ids_with method none rest ≡ rest
unfolding ids_with
without_id none rest = refl
without_id (some name) rest = refl

module _ (t : Tools) where
  reply-id : (method : Text) (id reply : Value) → RepliesTo t method id reply → reply_id reply ≡ id
  unfolding Json.get_field text_eq
  reply-id method id reply (inl (known, result, e)) = ap reply_id e
  reply-id method id reply (inr (unknown, e)) = ap reply_id e

  handle_each-ids : (ms : List Value) → map reply_id (handle_each t ms).0 ≡ request_ids ms
  unfolding handle_each ids_with
  handle_each-ids [] = refl
  handle_each-ids (m ∷ ms) =
      go (handle_each-ids ms) (Mcp.handle t m) (handle-Handled t m) ∙ sym (request_ids-with m ms)
    where
      go :
          map reply_id (handle_each t ms).0 ≡ request_ids ms
          → (o : Option (Value × Asked)) → Handled t m o
          → map reply_id (with_reply o (handle_each t ms)).0
            ≡ ids_with (method_of m) (id_of m) (request_ids ms)
      go ih none (silent (inl p)) = rw (ids_with, p) ih
      go ih none (silent (inr q)) = rw q (ih ∙ sym (without_id (method_of m) (request_ids ms)))
      go ih (some (r, more)) (replied method id reply asked p q right may) =
          rw (p, q)
            (ap (λ x. x ∷ map reply_id (handle_each t ms).0) (reply-id method id reply right)
              ∙ ap (◌∷◌ id) ih)

-- The IDs of the requests of a body: a batch, or one message.
abbrev pub body_ids : Value → List Value
body_ids (Json.arr xs) = request_ids (to_list xs)
body_ids message = request_ids (message ∷ [])

-- The replies to a batch are an array, the one to a message stands for itself.
abbrev pub InShape : Value → List Value → Value → Type 0
InShape (Json.arr xs) replies body = body ≡ Json.arr (of_list replies)
InShape message replies body = replies ≡ body ∷ []

no_more : (rs : List Value) → map reply_id rs ≡ [] → rs ≡ []
no_more [] q = refl
no_more (r ∷ rs) q = cc

-- One message has one reply at most.
one_reply :
    (message r : Value) (rs : List Value)
    → map reply_id (r ∷ rs) ≡ request_ids (message ∷ [])
    → r ∷ rs ≡ r ∷ []
unfolding ids_with
one_reply message r rs q =
    ap (◌∷◌ r) (go (method_of message) (id_of message) (q ∙ request_ids-with message []))
  where
    go :
        (method : Option Text) (i : Option Value)
        → map reply_id (r ∷ rs) ≡ ids_with method i []
        → rs ≡ []
    go none i p = cc
    go (some name) none p = cc
    go (some name) (some id) p = let rest : map reply_id rs ≡ [] = cc in no_more rs rest

batch_body-InShape :
    (message r : Value) (rs : List Value)
    → map reply_id (r ∷ rs) ≡ body_ids message
    → InShape message (r ∷ rs) (batch_body message r (r ∷ rs))
batch_body-InShape (Json.arr xs) r rs q = refl
batch_body-InShape (Json.str t) r rs q = one_reply (Json.str t) r rs q
batch_body-InShape (Json.bool b) r rs q = one_reply (Json.bool b) r rs q
batch_body-InShape (Json.obj fs) r rs q = one_reply (Json.obj fs) r rs q
batch_body-InShape (Json.num n) r rs q = one_reply (Json.num n) r rs q
batch_body-InShape (Json.neg n) r rs q = one_reply (Json.neg n) r rs q
batch_body-InShape (Json.float t) r rs q = one_reply (Json.float t) r rs q
batch_body-InShape Json.null r rs q = one_reply Json.null r rs q

messages_of-ids : (message : Value) → request_ids (messages_of message) ≡ body_ids message
messages_of-ids (Json.arr xs) = refl
messages_of-ids (Json.str t) = refl
messages_of-ids (Json.bool b) = refl
messages_of-ids (Json.obj fs) = refl
messages_of-ids (Json.num n) = refl
messages_of-ids (Json.neg n) = refl
messages_of-ids (Json.float t) = refl
messages_of-ids Json.null = refl

-- What a body is answered with.
abbrev pub Answers : Value → Reply → Type 0
Answers message reply =
    ((body_ids message ≡ []) × (reply.status ≡ 202) × (reply.body ≡ none))
    ⊎ ((first : Value) × (rest : List Value) × (body : Value) × (reply.status ≡ 200)
        × (reply.body ≡ some body)
        × InShape message (first ∷ rest) body
        × (map reply_id (first ∷ rest) ≡ body_ids message))

posted-Answers :
    (session : Text) (message : Value) (replies : List Value)
    → map reply_id replies ≡ body_ids message
    → Answers message (posted session message replies)
unfolding posted
posted-Answers session message [] q = inl (sym q, refl, refl)
posted-Answers session message (r ∷ rs) q =
    inr (r, rs, batch_body message r (r ∷ rs), refl, refl, batch_body-InShape message r rs q, q)

-- A POST to `/mcp` with a JSON body, a batch or one message, is answered with 202 and no body if it holds no
-- request, else with 200 and a reply for each request, with the requests' IDs in their order, and for
-- nothing else: a batch with the array of its replies, one message with the reply alone.
pub mcp-Answers :
    (t : Tools) (serde : Serde) (session : Text) (body : List ℕ) (message : Value)
    → serde.from_slice body ≡ some message
    → Answers message (mcp t serde session (codes "POST") body).0
unfolding mcp post_message text_eq
mcp-Answers t serde session body message q =
    subst (λ m. Answers message (post_message t session m).0) (sym q)
      (posted-Answers session message (handle_each t (messages_of message)).0
        (handle_each-ids t (messages_of message) ∙ messages_of-ids message))

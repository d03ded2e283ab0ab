-- ===== src/Tts/Faults.antt =====
-- src/tts.rs and src/gpu.rs: an engine that answers with HTTP error 500 counts as a GPU fault.
use homeassistant_local_voic.Base.{
  ℕ, ◌+◌, ◌^◌, ◌<◌, ◌≡◌, refl, Bool, true, Option, List, [], ◌∷◌, ◌++◌, ◌||◌, arith, take,
  unwrap_or,
}
use homeassistant_local_voic.Base.Result.{Result, ok, err}
use homeassistant_local_voic.Base.Text.{Text, codes, contains, starts_with, to_string}
use homeassistant_local_voic.Gpu.{Gpu, Speech, failure, success, count_fault, is_fault_sign, as_u32}
use homeassistant_local_voic.Tts.{Reply, answered, received, http_error}

-- What the handler tells the count of GPU faults after an answer.
abbrev pub report : (Text → Text) → Gpu → Result (List ℕ) → Gpu
report lower g (ok sound) = success g Speech.tts
report lower g (err message) = failure lower g Speech.tts message

abbrev pub reports : (Text → Text) → Gpu → List Reply → Gpu
reports lower g [] = g
reports lower g (r ∷ rs) = reports lower (report lower g (received r)) rs

fourth : (a b c : Bool) → (a || (b || (c || true))) ≡ true
fourth a b c = ground arith

five_hundred : (rest : Text) → is_fault_sign (codes "http error 500" ++ rest) ≡ true
unfolding is_fault_sign contains starts_with
five_hundred rest =
    fourth (contains rest (codes "device lost")) (contains rest (codes "devicelost"))
      (contains rest (codes "context is lost"))

-- Lower case does not look across the front of the text, which is ASCII.
abbrev pub LowersFront : (Text → Text) → Type 0
LowersFront lower =
    (rest : Text) → lower (codes "HTTP error 500" ++ rest) ≡ codes "http error 500" ++ lower rest

received_failure :
    (lower : Text → Text) (g : Gpu) (bytes : Result (List ℕ)) (body : Option Text)
    → LowersFront lower
    → g.tts_on_gpu ≡ true
    → report lower g (received (answered 500 bytes body)) ≡ count_fault g
unfolding received http_error failure to_string
received_failure lower g bytes body front on =
    rw (on, front (codes ": " ++ take 200 (unwrap_or body [])), five_hundred _) refl

counted : (g : Gpu) → g.tts_on_gpu ≡ true → (count_fault g).tts_on_gpu ≡ true
unfolding count_fault
counted g h = h

thrice : (g : Gpu) → g.faults + 3 < 2 ^ 32 → (count_fault (count_fault (count_fault g))).lost ≡ true
unfolding count_fault as_u32
thrice g h = ground arith

-- Three answers with HTTP error 500 in a row of a speech engine that runs on the GPU restart the
-- server, whatever bodies they have.
pub reports-received :
    (lower : Text → Text) (g : Gpu) (a b c : Option Text) (x y z : Result (List ℕ))
    → LowersFront lower
    → g.tts_on_gpu ≡ true
    → g.faults + 3 < 2 ^ 32
    → (reports lower g (answered 500 x a ∷ answered 500 y b ∷ answered 500 z c ∷ [])).lost ≡ true
reports-received lower g a b c x y z front on few =
    let g1 = count_fault g in
    let g2 = count_fault g1 in
    let on1 = counted g on in
    rw
      (
        received_failure lower g x a front on,
        received_failure lower g1 y b front on1,
        received_failure lower g2 z c front (counted g1 on1),
      )
      (thrice g few)

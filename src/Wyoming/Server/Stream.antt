-- ===== src/Wyoming/Server/Stream.antt =====
-- The loop over bytes and the loop over events.
use homeassistant_local_voic.Base.{ℕ, ◌≡◌, refl, List, [], ◌∷◌, ◌++◌, All}
use homeassistant_local_voic.Json.{Serde}
use homeassistant_local_voic.Wyoming.Protocol.{Event, write_event}
use homeassistant_local_voic.Wyoming.Protocol.RoundTrip.{Fits, read_event-write_event}
use homeassistant_local_voic.Wyoming.Server.{
  Engines, Session, Flow, goes, ends, Setup, handle_event, handle_all, serve,
}

module _ (setup : Setup) (serde : Serde) where
  abbrev pub sent : List (Event × Engines) → List ℕ
  sent [] = []
  sent ((e, engines) ∷ rest) = write_event serde e ++ sent rest

  abbrev pub answers : List (Event × Engines) → List Engines
  answers [] = []
  answers ((e, engines) ∷ rest) = engines ∷ answers rest

  -- A connection that carries events as `write_event` writes them, each within the limits and with a type and
  -- data that JSON holds without loss, is served event by event.
  pub serve-write_event :
      (es : List (Event × Engines)) (s : Session)
      → All (λ x. Fits serde x.0) es
      → serve setup serde (answers es) (sent es) s ≡ handle_all setup es s
  unfolding serve handle_all
  serve-write_event [] s h = refl
  serve-write_event ((e, engines) ∷ rest) s (fits, h) =
      go (λ t. serve-write_event rest t h) (handle_event setup engines s e) refl
    where
      go :
          ((t : Session) → serve setup serde (answers rest) (sent rest) t ≡ handle_all setup rest t)
          → (x : Flow) → handle_event setup engines s e ≡ x
          → serve setup serde (answers ((e, engines) ∷ rest)) (sent ((e, engines) ∷ rest)) s
            ≡ handle_all setup ((e, engines) ∷ rest) s
      go ih (ends t error) q =
          rw (serve, read_event-write_event serde e (sent rest) fits) (rw (handle_all, q) refl)
      go ih (goes t) q =
          rw (serve, read_event-write_event serde e (sent rest) fits) (rw (handle_all, q) (ih t))

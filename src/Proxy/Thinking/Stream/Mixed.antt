-- ===== src/Proxy/Thinking/Stream/Mixed.antt =====
-- Two thinking blocks whose pieces come mixed (`register_from_sse_stream`,
-- src/proxy/thinking/registry.rs).
use anycode.Base.{ℕ, String, ◌<>◌, ◌≢◌, List, [], ◌∷◌, append-nil, Bytes}
use text.Mathlib.TextLemmas.{append-nil as text_append-nil, append_assoc as text_append_assoc}
use anycode.Proxy.Json.{Json}
use anycode.Proxy.Sse.{SseEvent}
use anycode.Proxy.Thinking.Stream.{Accumulators, IsDelta}

module _ {V : Type 0} (json : Json V) (hasher : Bytes → Bytes → ℕ → ℕ) (now session_id : ℕ) where
  -- The deltas of two blocks in any order, and the texts that they make.
  pub data Mixed (i j : ℕ) : List (SseEvent V) → String → String → Type 0 where
    no_more : Mixed i j [] "" ""
    of_first :
        {e : SseEvent V} {es : List (SseEvent V)} {text a b : String}
        → IsDelta json hasher now session_id e i text
        → Mixed i j es a b
        → Mixed i j (e ∷ es) (text <> a) b
    of_second :
        {e : SseEvent V} {es : List (SseEvent V)} {text a b : String}
        → IsDelta json hasher now session_id e j text
        → Mixed i j es a b
        → Mixed i j (e ∷ es) a (text <> b)

  module _ (i j : ℕ) (ne : i ≢ j) where
    -- The second block, which started last, stands first.
    abbrev both : String → String → Accumulators
    both a b = (j, b) ∷ (i, a) ∷ []

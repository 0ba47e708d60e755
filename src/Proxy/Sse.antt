-- ===== src/Proxy/Sse.antt =====
-- src/sse.rs: the events of a server-sent stream and their statistics. An event's data is a value
-- that `serde_json` has parsed; cutting the stream into lines is left to it.
use anycode.Base.{
  ℕ, ◌+◌, ◌≡◌, String, Bool, false, not, ◌||◌, Option, none, some, List, [], ◌∷◌, arith, any, ◌==◌,
  str_eq, str_eq_iff, if◌then◌else◌, ◌>>=◌,
}
use anycode.Proxy.Json.{Json, str_at, u64_at}

-- `payload` is the field `data`.
pub record SseEvent (V : Type 0) : Type 0 where
  pub event_type : String
  pub payload : V

-- `thinking_indices` is the local set of block indices.
pub record ThinkingStreamStats : Type 0 where
  pub thinking_blocks : ℕ
  pub redacted_blocks : ℕ
  pub thinking_deltas : ℕ
  pub signature_deltas : ℕ
  pub thinking_stops : ℕ
  pub has_signatures : Bool

abbrev pub no_stats : ThinkingStreamStats
no_stats = record {
  thinking_blocks = 0;
  redacted_blocks = 0;
  thinking_deltas = 0;
  signature_deltas = 0;
  thinking_stops = 0;
  has_signatures = false;
}

abbrev pub total : ThinkingStreamStats → ℕ
total s =
    s.thinking_blocks + s.redacted_blocks + s.thinking_deltas + s.signature_deltas
    + s.thinking_stops

abbrev pub is_str : Option String → String → Bool
is_str none s = false
is_str (some t) s = str_eq t s

-- `unwrap_or("")`, and whether it is empty.
abbrev pub or_empty : Option String → String
or_empty none = ""
or_empty (some t) = t

abbrev has_text : Option String → Bool
has_text s = not (str_eq (or_empty s) "")

abbrev add_index : Option ℕ → List ℕ → List ℕ
add_index none is = is
add_index (some i) is = i ∷ is

abbrev seen_index : Option ℕ → List ℕ → Bool
seen_index none is = false
seen_index (some i) is = any (λ k. k == i) is

module _ {V : Type 0} (json : Json V) where
  -- `data.get(outer).and_then(|b| b.get(key)).and_then(|t| t.as_str())`
  abbrev pub inner_str : V → String → String → Option String
  inner_str payload outer k = json.get payload outer >>= λ b. str_at json b k

  unfoldable pub is_thinking_event : SseEvent V → Bool
  is_thinking_event e =
      if str_eq e.event_type "content_block_start"
      then (let t = inner_str e.payload "content_block" "type" in
          is_str t "thinking" || is_str t "redacted_thinking")
      else if str_eq e.event_type "content_block_delta"
      then (let t = inner_str e.payload "delta" "type" in
          is_str t "thinking_delta" || is_str t "signature_delta")
      else false

  unfoldable pub thinking_count : List (SseEvent V) → ℕ
  thinking_count [] = 0
  thinking_count (e ∷ es) = (if is_thinking_event e then 1 else 0) + thinking_count es

  abbrev see_start : V → ThinkingStreamStats × List ℕ → ThinkingStreamStats × List ℕ
  see_start payload (s, indices) =
      let t = inner_str payload "content_block" "type" in
      let indices' = add_index (u64_at json payload "index") indices in
      if is_str t "thinking"
      then (
        record s {
          thinking_blocks = s.thinking_blocks + 1;
          has_signatures =
              s.has_signatures || has_text (inner_str payload "content_block" "signature");
        },
        indices',
      )
      else if is_str t "redacted_thinking"
      then (record s { redacted_blocks = s.redacted_blocks + 1 }, indices')
      else (s, indices)

  abbrev see_delta : V → ThinkingStreamStats × List ℕ → ThinkingStreamStats × List ℕ
  see_delta payload (s, indices) =
      let t = inner_str payload "delta" "type" in
      if is_str t "thinking_delta"
      then (record s { thinking_deltas = s.thinking_deltas + 1 }, indices)
      else if is_str t "signature_delta"
      then (
        record s {
          signature_deltas = s.signature_deltas + 1;
          has_signatures = s.has_signatures || has_text (inner_str payload "delta" "signature");
        },
        indices,
      )
      else (s, indices)

  abbrev see_stop : V → ThinkingStreamStats × List ℕ → ThinkingStreamStats × List ℕ
  see_stop payload (s, indices) =
      if seen_index (u64_at json payload "index") indices
      then (record s { thinking_stops = s.thinking_stops + 1 }, indices)
      else (s, indices)

  unfoldable pub see_event :
      SseEvent V → ThinkingStreamStats × List ℕ → ThinkingStreamStats × List ℕ
  see_event e st =
      if str_eq e.event_type "content_block_start"
      then see_start e.payload st
      else if str_eq e.event_type "content_block_delta"
      then see_delta e.payload st
      else if str_eq e.event_type "content_block_stop"
      then see_stop e.payload st
      else st

  unfoldable pub see_events :
      List (SseEvent V) → ThinkingStreamStats × List ℕ → ThinkingStreamStats × List ℕ
  unfolding see_event
  see_events [] st = st
  see_events (e ∷ es) st = see_events es (see_event e st)

  unfoldable pub analyze_thinking_stream : List (SseEvent V) → ThinkingStreamStats
  unfolding see_events
  analyze_thinking_stream es = (see_events es (no_stats, [])).0

  -- What one event adds to the total besides a stop.
  see_event-total :
      (e : SseEvent V) (s : ThinkingStreamStats) (indices : List ℕ)
      → total (see_event e (s, indices)).0 + s.thinking_stops
        ≡ (if is_thinking_event e then 1 else 0)
          + total s
          + (see_event e (s, indices)).0.thinking_stops
  unfolding see_event is_thinking_event
  see_event-total e s indices = ground (
    arith,
    str_eq_iff e.event_type "content_block_start",
    str_eq_iff e.event_type "content_block_delta",
  )

  see_events-total :
      (es : List (SseEvent V)) (s : ThinkingStreamStats) (indices : List ℕ)
      → total (see_events es (s, indices)).0 + s.thinking_stops
        ≡ thinking_count es + total s + (see_events es (s, indices)).0.thinking_stops
  unfolding see_events thinking_count
  see_events-total [] s indices = omega arith
  see_events-total (e ∷ es) s indices =
      let next = see_event e (s, indices) in
      omega (arith, see_event-total e s indices, see_events-total es next.0 next.1)

  -- The total of the statistics is the number of events that the stateless test counts, plus the
  -- stops that only the stateful analysis can attribute to a thinking block.
  pub total-analyze_thinking_stream :
      (es : List (SseEvent V))
      → total (analyze_thinking_stream es)
        ≡ thinking_count es + (analyze_thinking_stream es).thinking_stops
  unfolding analyze_thinking_stream
  total-analyze_thinking_stream es = omega (arith, see_events-total es no_stats [])

-- ===== src/Proxy/Thinking/Stream.antt =====
-- `register_from_sse_stream` (src/proxy/thinking/registry.rs): thinking blocks that arrive in
-- pieces. The accumulators are a map from a block's index to its text so far.
pub mod Mixed
use anycode.Base.{
  ℕ, String, ◌<>◌, ◌≡◌, ◌≢◌, true, false, arith, refl, Option, none, some, List, [], ◌∷◌, ◌++◌,
  append-nil, Bytes, ◌==◌, ==_iff, str_eq, if◌then◌else◌, ap, ◌∙◌, sym,
}
use text.Mathlib.TextLemmas.{append-nil as text_append-nil, append_assoc as text_append_assoc}
use anycode.Proxy.Json.{Json, str_at, u64_at}
use anycode.Proxy.Sse.{SseEvent, is_str, or_empty}
use anycode.Proxy.Thinking.{ThinkingRegistry, register_block}

abbrev pub Accumulators : Type 0
Accumulators = List (ℕ × String)

unfoldable pub drop_index : ℕ → Accumulators → Accumulators
drop_index i [] = []
drop_index i ((k, t) ∷ rest) =
    let others = drop_index i rest in if k == i then others else (k, t) ∷ others

-- `accumulators.get_mut(&index)` and `push_str`.
unfoldable pub push_str : ℕ → String → Accumulators → Accumulators
push_str i more [] = []
push_str i more ((k, t) ∷ rest) =
    let others = push_str i more rest in if k == i then (k, t <> more) ∷ others else (k, t) ∷ others

unfoldable pub text_of : ℕ → Accumulators → Option String
text_of i [] = none
text_of i ((k, t) ∷ rest) = if k == i then some t else text_of i rest

module _ {V : Type 0} (json : Json V) (hasher : Bytes → Bytes → ℕ → ℕ) (now session_id : ℕ) where
  -- A text is registered unless it is empty.
  abbrev pub register_text : ThinkingRegistry → String → ThinkingRegistry
  register_text r text = if str_eq text "" then r else register_block hasher now r text session_id

  abbrev start_text :
      Option ℕ → Option String → ThinkingRegistry × Accumulators → ThinkingRegistry × Accumulators
  start_text none text st = st
  start_text (some i) text (r, accs) = (r, (i, or_empty text) ∷ drop_index i accs)

  abbrev register_some : Option String → ThinkingRegistry → ThinkingRegistry
  register_some none r = r
  register_some (some content) r = register_block hasher now r content session_id

  abbrev on_start : V → Option V → ThinkingRegistry × Accumulators → ThinkingRegistry × Accumulators
  on_start payload none st = st
  on_start payload (some block) st =
      if is_str (str_at json block "type") "thinking"
      then start_text (u64_at json payload "index") (str_at json block "thinking") st
      else if is_str (str_at json block "type") "redacted_thinking"
      then (register_some (str_at json block "data") st.0, st.1)
      else st

  abbrev append_text :
      Option ℕ → Option String → ThinkingRegistry × Accumulators → ThinkingRegistry × Accumulators
  append_text (some i) (some more) (r, accs) = (r, push_str i more accs)
  append_text _ _ st = st

  abbrev on_delta : V → Option V → ThinkingRegistry × Accumulators → ThinkingRegistry × Accumulators
  on_delta payload none st = st
  on_delta payload (some delta) st =
      if is_str (str_at json delta "type") "thinking_delta"
      then append_text (u64_at json payload "index") (str_at json delta "thinking") st
      else st

  abbrev pub close_text : Option String → ThinkingRegistry → ThinkingRegistry
  close_text none r = r
  close_text (some text) r = register_text r text

  abbrev on_stop : Option ℕ → ThinkingRegistry × Accumulators → ThinkingRegistry × Accumulators
  on_stop none st = st
  on_stop (some i) (r, accs) = (close_text (text_of i accs) r, drop_index i accs)

  unfoldable pub on_event :
      SseEvent V → ThinkingRegistry × Accumulators → ThinkingRegistry × Accumulators
  on_event e st =
      if str_eq e.event_type "content_block_start"
      then on_start e.payload (json.get e.payload "content_block") st
      else if str_eq e.event_type "content_block_delta"
      then on_delta e.payload (json.get e.payload "delta") st
      else if str_eq e.event_type "content_block_stop"
      then on_stop (u64_at json e.payload "index") st
      else st

  unfoldable pub on_events :
      List (SseEvent V) → ThinkingRegistry × Accumulators → ThinkingRegistry × Accumulators
  unfolding on_event
  on_events [] st = st
  on_events (e ∷ es) st = on_events es (on_event e st)

  -- What is left when the stream ends.
  unfoldable pub register_rest : Accumulators → ThinkingRegistry → ThinkingRegistry
  register_rest [] r = r
  register_rest ((i, text) ∷ rest) r = register_rest rest (register_text r text)

  unfoldable pub register_from_sse_stream : ThinkingRegistry → List (SseEvent V) → ThinkingRegistry
  unfolding on_events register_rest
  register_from_sse_stream r es = let st = on_events es (r, []) in register_rest st.1 st.0

  -- The three kinds of event of a block that is sent in pieces.
  pub record IsStart (e : SseEvent V) (i : ℕ) (text : String) : Type 0 where
    pub block : V
    pub kind : e.event_type ≡ "content_block_start"
    pub here : json.get e.payload "content_block" ≡ some block
    pub thinking : str_at json block "type" ≡ some "thinking"
    pub index : u64_at json e.payload "index" ≡ some i
    pub initial : str_at json block "thinking" ≡ some text

  pub record IsDelta (e : SseEvent V) (i : ℕ) (text : String) : Type 0 where
    pub delta : V
    pub kind : e.event_type ≡ "content_block_delta"
    pub here : json.get e.payload "delta" ≡ some delta
    pub thinking : str_at json delta "type" ≡ some "thinking_delta"
    pub index : u64_at json e.payload "index" ≡ some i
    pub chunk : str_at json delta "thinking" ≡ some text

  pub record IsStop (e : SseEvent V) (i : ℕ) : Type 0 where
    pub kind : e.event_type ≡ "content_block_stop"
    pub index : u64_at json e.payload "index" ≡ some i

  -- The deltas of one block, and the text that they make.
  pub data Deltas (i : ℕ) : List (SseEvent V) → String → Type 0 where
    no_deltas : Deltas i [] ""
    delta :
        {e : SseEvent V} {es : List (SseEvent V)} {text rest : String}
        → IsDelta e i text
        → Deltas i es rest
        → Deltas i (e ∷ es) (text <> rest)

  on_event-IsStart :
      (e : SseEvent V) (i : ℕ) (text : String) (r : ThinkingRegistry)
      → IsStart e i text
      → on_event e (r, []) ≡ (r, (i, text) ∷ [])
  unfolding on_event drop_index
  on_event-IsStart e i text r s = rw (s.kind, s.here, s.thinking, s.index, s.initial) refl

  on_event-IsDelta :
      (e : SseEvent V) (i : ℕ) (acc text : String) (r : ThinkingRegistry)
      → IsDelta e i text
      → on_event e (r, (i, acc) ∷ []) ≡ (r, (i, acc <> text) ∷ [])
  unfolding on_event push_str
  on_event-IsDelta e i acc text r d =
      rw (d.kind, d.here, d.thinking, d.index, d.chunk) (rw ((==_iff i i).1 refl) refl)

  pub on_event-IsStop :
      (e : SseEvent V) (i : ℕ) (acc : String) (r : ThinkingRegistry)
      → IsStop e i
      → on_event e (r, (i, acc) ∷ []) ≡ (register_text r acc, [])
  unfolding on_event text_of drop_index
  on_event-IsStop e i acc r s = rw (s.kind, s.index) (rw ((==_iff i i).1 refl) refl)

  pub on_events-Deltas :
      (i : ℕ) (es tail : List (SseEvent V)) (acc text : String) (r : ThinkingRegistry)
      → Deltas i es text
      → on_events (es ++ tail) (r, (i, acc) ∷ []) ≡ on_events tail (r, (i, acc <> text) ∷ [])
  unfolding on_events
  on_events-Deltas i es tail acc text r no_deltas =
      ap (λ u. on_events tail (r, (i, u) ∷ [])) (sym (text_append-nil acc))
  on_events-Deltas i es tail acc text r (delta {e = e} {es = es'} {text = t} {rest = t'} d ds) =
      ap (on_events (es' ++ tail)) (on_event-IsDelta e i acc t r d)
      ∙ on_events-Deltas i es' tail (acc <> t) t' r ds
      ∙ ap (λ u. on_events tail (r, (i, u) ∷ [])) (text_append_assoc acc t t')

  -- A stream of one thinking block in pieces registers the one block with the whole text,
  -- whether its stop event arrives or the stream is cut off before it; an empty text is not
  -- registered.
  register_from_sse_stream-Deltas :
      (r : ThinkingRegistry) (start stop : SseEvent V) (es : List (SseEvent V)) (i : ℕ)
      (initial text : String)
      → IsStart start i initial
      → Deltas i es text
      → IsStop stop i
      → (register_from_sse_stream r (start ∷ (es ++ stop ∷ [])) ≡ register_text r (initial <> text))
        × (register_from_sse_stream r (start ∷ es) ≡ register_text r (initial <> text))
  unfolding register_from_sse_stream on_events register_rest
  register_from_sse_stream-Deltas r start stop es i initial text s ds t =
      let finish = λ (st : ThinkingRegistry × Accumulators). register_rest st.1 st.0 in
      let begin = λ (tail : List (SseEvent V)).
        ap (on_events (es ++ tail)) (on_event-IsStart start i initial r s)
        ∙ on_events-Deltas i es tail initial text r ds in
      (
        ap finish (begin (stop ∷ []) ∙ on_event-IsStop stop i (initial <> text) r t),
        ap (λ fs. finish (on_events (start ∷ fs) (r, []))) (sym (append-nil es))
            ∙ ap finish (begin []),
      )

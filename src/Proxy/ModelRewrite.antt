-- ===== src/Proxy/ModelRewrite.antt =====
-- The names of models in responses (src/proxy/model_rewrite.rs): what a request's model was rewritten
-- to is mapped back. Texts are lists of code points. Parsing and printing of `serde_json` are
-- parameters; what only the log uses is left out. The state of the closure is `anthropic_done`.
pub mod Back
use anycode.Base.{
  ℕ, String, Bool, true, false, not, ◌&&◌, ◌||◌, Option, none, some, List, [], ◌∷◌, ◌++◌, Bytes,
  ◌==◌, str_eq, starts_with, codes, is_some, if◌then◌else◌, ◌>>=◌, white_space,
}
use anycode.Base.Utf8.{from_utf8_lossy, encode_all}
use anycode.Metrics.Redaction.{strip_prefix, trim_start, trim_end}
use anycode.Proxy.Json.{Json, str_at}
use anycode.Proxy.Edit.{JsonEdit}
use anycode.Proxy.Transform.{ModelMapping}

abbrev pub Chars : Type 0
Chars = List ℕ

abbrev pub contains_bytes : Bytes → Bytes → Bool
contains_bytes [] needle = false
contains_bytes (b ∷ haystack) needle =
    is_some (strip_prefix (b ∷ haystack) needle) || contains_bytes haystack needle

abbrev push_char : ℕ → List Chars → List Chars
push_char c [] = (c ∷ []) ∷ []
push_char c (line ∷ lines) = (c ∷ line) ∷ lines

-- `split('\n')`
abbrev pub split_lines : Chars → List Chars
split_lines [] = [] ∷ []
split_lines (c ∷ s) =
    let lines = split_lines s in if c == 0x0a then [] ∷ lines else push_char c lines

abbrev pub with_break : Chars → Chars
with_break [] = []
with_break (c ∷ s) = (c ∷ s) ++ 0x0a ∷ []

abbrev is_text : String → Option String → Bool
is_text s none = false
is_text s (some t) = str_eq t s

abbrev is_chunk : Option String → Bool
is_chunk none = false
is_chunk (some t) = starts_with t "chat.completion"

-- What a line adds to the text, whether a model was rewritten, and the closure's state after it.
pub record Line : Type 0 where
  pub text : Chars
  pub rewritten : Bool
  pub anthropic_done : Bool

abbrev pub data_payload : Chars → Option Chars
data_payload line =
    strip_prefix (trim_end (trim_start line)) (codes "data:") >>= λ rest. some (trim_start rest)

module _ {V : Type 0} {json : Json V} (edit : JsonEdit json) where
  abbrev pub set_model : ModelMapping → V → V
  set_model mapping v = edit.put v "model" (edit.string mapping.original)

  abbrev pub reverse_found : ModelMapping → V → Option String → Option V
  reverse_found mapping v none = none
  reverse_found mapping v (some model) =
      if str_eq model mapping.backend then some (set_model mapping v) else none

  -- None if the value is left as it is.
  unfoldable pub reverse_model : ModelMapping → V → Option V
  reverse_model mapping v = reverse_found mapping v (str_at json v "model")

  abbrev bytes_or : Bytes → Option Bytes → Bytes
  bytes_or body_bytes none = body_bytes
  bytes_or body_bytes (some bytes) = bytes

  unfoldable pub reverse_model_in_response :
      (Bytes → Option V) → (V → Option Bytes) → Bytes → ModelMapping → Bytes
  unfolding reverse_model
  reverse_model_in_response from_slice to_vec body_bytes mapping =
      bytes_or body_bytes (from_slice body_bytes >>= λ v. reverse_model mapping v >>= to_vec)

  abbrev in_message : V → Option V → Option V
  in_message v none = none
  in_message v (some message) = some (edit.put v "message" message)

  abbrev pub is_msg_start : V → Bool
  is_msg_start v = is_text "message_start" (str_at json v "type")

  abbrev pub is_openai_chunk : V → Bool
  is_openai_chunk v = is_chunk (str_at json v "object")

  -- The event with its model mapped back; none if the model stays.
  unfoldable pub reverse_event : ModelMapping → V → Option V
  unfolding reverse_model
  reverse_event mapping v =
      if is_msg_start v
      then in_message v (json.get v "message" >>= reverse_model mapping)
      else reverse_model mapping v

  abbrev value_or : V → Option V → V
  value_or v none = v
  value_or v (some w) = w

  abbrev text_or : Chars → Option Chars → Chars
  text_or payload none = payload
  text_or payload (some text) = text

  module _ (from_str : Chars → Option V) (to_string : V → Option Chars) where
    abbrev rewrite_event : ModelMapping → Bool → Chars → Chars → V → Line
    rewrite_event mapping anthropic_done line payload v =
        if is_msg_start v || is_openai_chunk v
        then record {
          text =
              codes "data: " ++ text_or payload (to_string (value_or v (reverse_event mapping v)));
          rewritten = is_some (reverse_event mapping v);
          anthropic_done = anthropic_done || is_msg_start v;
        }
        else record { text = line; rewritten = false; anthropic_done = anthropic_done }

    abbrev rewrite_parsed : ModelMapping → Bool → Chars → Chars → Option V → Line
    rewrite_parsed mapping anthropic_done line payload none = record {
      text = line;
      rewritten = false;
      anthropic_done = anthropic_done;
    }
    rewrite_parsed mapping anthropic_done line payload (some v) =
        rewrite_event mapping anthropic_done line payload v

    abbrev rewrite_payload : ModelMapping → Bool → Chars → Option Chars → Line
    rewrite_payload mapping anthropic_done line none = record {
      text = line;
      rewritten = false;
      anthropic_done = anthropic_done;
    }
    rewrite_payload mapping anthropic_done line (some payload) =
        rewrite_parsed mapping anthropic_done line payload (from_str payload)

    unfoldable pub rewrite_line : ModelMapping → Bool → Chars → Line
    unfolding reverse_event
    rewrite_line mapping anthropic_done line =
        rewrite_payload mapping anthropic_done line (data_payload line)

    -- The loop over the lines; `acc` has the text so far.
    unfoldable pub rewrite_lines : ModelMapping → Line → List Chars → Line
    unfolding rewrite_line
    rewrite_lines mapping acc [] = acc
    rewrite_lines mapping acc (line ∷ lines) =
        let next = rewrite_line mapping acc.anthropic_done line in
        rewrite_lines mapping
          (record {
            text = with_break acc.text ++ next.text;
            rewritten = acc.rewritten || next.rewritten;
            anthropic_done = next.anthropic_done;
          })
          lines

    abbrev pub has_marker : Bool → Bytes → Bool
    has_marker anthropic_done bytes =
        (not anthropic_done && contains_bytes bytes (codes "\"message_start\""))
        || (contains_bytes bytes (codes "chat.completion")
            && contains_bytes bytes (codes "\"model\""))

    abbrev rewritten_bytes : Bytes → Line → Bool × Bytes
    rewritten_bytes bytes l = (l.anthropic_done, if l.rewritten then encode_all l.text else bytes)

    -- The closure of `make_reverse_model_rewriter`: the state and the bytes after it.
    unfoldable pub rewrite_chunk : ModelMapping → Bool → Bytes → Bool × Bytes
    unfolding rewrite_lines
    rewrite_chunk mapping anthropic_done bytes =
        if not (has_marker anthropic_done bytes)
        then (anthropic_done, bytes)
        else rewritten_bytes bytes (
            rewrite_lines mapping
              (record { text = []; rewritten = false; anthropic_done = anthropic_done })
              (split_lines (from_utf8_lossy bytes)))

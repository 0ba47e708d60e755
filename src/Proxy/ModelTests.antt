-- ===== src/Proxy/ModelTests.antt =====
-- The rewriting of models in concrete responses.
use anycode.Base.{
  ◌≡◌, refl, true, false, Option, none, some, codes, ◌>>=◌, if◌then◌else◌, white_space, bytes_eq,
}
use anycode.Base.Utf8.{from_utf8_lossy}
use anycode.Config.{Backend, default_backend, resolve_model}
use anycode.Metrics.Redaction.{trim_start, trim_end}
use anycode.Proxy.Json.{str_at}
use anycode.Proxy.Tree.{Tree, text, object, no_member, member, tree_json}
use anycode.Proxy.TreeEdit.{tree_edit}
use anycode.Proxy.Transform.{ModelMapping, rewrite_model}
use anycode.Proxy.ModelRewrite.{Chars, reverse_model, rewrite_chunk}
use anycode.Proxy.ModelRewrite.Back.{rewrite_model-reverse_model}

abbrev glm : Backend
glm = record default_backend { name = "glm"; model_opus = some "glm-5" }

abbrev mapping : ModelMapping
mapping = record { backend = "glm-5"; original = "claude-opus-4-6" }

abbrev request : Tree
request = object (member "model" (text "claude-opus-4-6") no_member)

abbrev response : Tree
response = object (member "id" (text "r1") (member "model" (text "glm-5") no_member))

-- A parser that knows one event, and a printer that prints the model of a message alone.
abbrev event : Tree
event = object (member "type" (text "message_start") (member "message" response no_member))

abbrev parse : Chars → Option Tree
parse s = if bytes_eq s (codes "{\"message_start\"}") then some event else none

abbrev print : Tree → Option Chars
print v = (tree_json.get v "message" >>= λ m. str_at tree_json m "model") >>= λ s. some (codes s)

-- The event is printed again, and the rest of the chunk stays.
chunk_test :
    rewrite_chunk tree_edit parse print mapping false (codes "id: 1\ndata: {\"message_start\"}\n\n")
    ≡ (true, codes "id: 1\ndata: claude-opus-4-6\n\n")
unfolding rewrite_chunk from_utf8_lossy trim_start trim_end white_space bytes_eq
chunk_test = refl

-- The line break before the first line is lost.
lost_break_test :
    rewrite_chunk tree_edit parse print mapping false (codes "\ndata: {\"message_start\"}\n")
    ≡ (true, codes "data: claude-opus-4-6\n")
unfolding rewrite_chunk from_utf8_lossy trim_start trim_end white_space bytes_eq
lost_break_test = refl

rewrite_model-reverse_model_example :
    (str_at tree_json (rewrite_model tree_edit glm request).0 "model" ≡ some "glm-5")
    × ((reverse_model tree_edit mapping response >>= λ v. str_at tree_json v "model")
        ≡ str_at tree_json request "model")
    × ((reverse_model tree_edit mapping response >>= λ v. tree_json.get v "id")
        ≡ tree_json.get response "id")
unfolding rewrite_model resolve_model
rewrite_model-reverse_model_example =
    rewrite_model-reverse_model tree_edit glm request mapping response "id" refl refl refl

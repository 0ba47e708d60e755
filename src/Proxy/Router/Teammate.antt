-- ===== src/Proxy/Router/Teammate.antt =====
-- The requests of a teammate, whose paths the installed shell script begins with its identifier.
use anycode.Base.{
  String, ◌<>◌, ◌≡◌, ◌≢◌, ap, ◌∙◌, true, false, Option, none, some, arith, str_eq, str_eq_iff, sym,
  if◌then◌else◌, ◌>>=◌,
}
use text.Mathlib.TextLemmas.{nil-append, cons-append, append_assoc, cons≢nil}
use anycode.Backend.Agents.{lookup}
use anycode.Proxy.Hooks.{HookState, get}
use anycode.Proxy.Markers.{strip_prefix, before, or_else, lacks, strip_prefix-append, before-here}
use anycode.Proxy.Router.{
  Uri, Incoming, Dispatched, candidate, new_path, with_query, or_path, or_root, dispatch, or_active,
  or_uri, segment_of, non_empty, first_segment, dispatched,
}

before-slash :
    (id rest : String) → lacks 0x2f id ≡ true → before (id <> ("/" <> rest)) "/" ≡ some id
unfolding before strip_prefix
before-slash String.[] s h =
    ap (λ t. before t "/") (nil-append ("/" <> s))
    ∙ before-here ("/" <> s) s "/" (strip_prefix-append "/" s)
before-slash (String.◌∷◌ c id) s h =
    ap (λ t. before t "/") (cons-append c id ("/" <> s)) ∙ ground (arith, before-slash id s)

abbrev pub teammate_path : String → String → String
teammate_path id rest = "/" <> (id <> ("/" <> rest))

abbrev pub at_teammate : String → String → Option String → Uri
at_teammate id rest query = record { path = teammate_path id rest; query = query }

abbrev pub from_teammate : String → String → Option String → Option String → Incoming
from_teammate id rest query ignored = record {
  uri = at_teammate id rest query;
  is_teammate = true;
  backend_override = ignored;
}

-- What is sent if the first segment is `id`, with the URI `uri`.
abbrev by_agent : HookState → Uri → String → Dispatched
by_agent state uri id =
    let backend = or_else (lookup state.registry id) (get state.teammate_backend) in
    record { uri = uri; backend_override = backend; active_backend = or_active state backend }

str_eq_blank : (id : String) → id ≢ "" → str_eq id "" ≡ false
str_eq_blank id n = ground (arith, str_eq_iff id "")

candidate-teammate_path :
    (id rest : String)
    → id ≢ ""
    → lacks 0x2f id ≡ true
    → candidate (teammate_path id rest) ≡ some id
candidate-teammate_path id rest n h =
    ap (λ o. o >>= segment_of) (strip_prefix-append "/" (id <> ("/" <> rest)))
    ∙ ap (λ o. non_empty (first_segment o (id <> ("/" <> rest)))) (before-slash id rest h)
    ∙ ap (λ t. if t then none else some id) (str_eq_blank id n)

slash-nonempty : (rest : String) → ("/" <> rest) ≢ ""
slash-nonempty rest e = cons≢nil (sym (cons-append _ "" rest) ∙ e)

new_path-teammate_path : (id rest : String) → new_path (teammate_path id rest) id ≡ "/" <> rest
new_path-teammate_path id rest =
    ap (λ t. or_root (or_path (teammate_path id rest) (strip_prefix t ("/" <> id))))
      (sym (append_assoc "/" id ("/" <> rest)))
    ∙ ap (λ o. or_root (or_path (teammate_path id rest) o))
        (strip_prefix-append ("/" <> id) ("/" <> rest))
    ∙ ap (λ t. if t then "/" else "/" <> rest) (str_eq_blank ("/" <> rest) (slash-nonempty rest))

-- A request of a teammate, whose path begins with its identifier: the pipeline gets the path without
-- it, if the URI can be parsed again, and the backend is that of the identifier in the registry, or
-- the teammates' backend if it has none there; the metrics name the active backend if that is not
-- set either.
pub dispatch-teammate :
    (parse : String → Option Uri) (state : HookState) (id rest : String) (query : Option String)
    (ignored : Option String) (sent : Uri)
    → id ≢ ""
    → lacks 0x2f id ≡ true
    → parse (with_query ("/" <> rest) query) ≡ some sent
    → dispatch parse state (from_teammate id rest query ignored) ≡ record {
      uri = sent;
      backend_override = or_else (lookup state.registry id) (get state.teammate_backend);
      active_backend =
          or_active state (or_else (lookup state.registry id) (get state.teammate_backend));
    }
unfolding dispatch
dispatch-teammate parse state id rest query ignored sent n h e =
    ap (λ c. dispatched parse state (from_teammate id rest query ignored) c)
      (candidate-teammate_path id rest n h)
    ∙ ap (λ p. by_agent state (or_uri (at_teammate id rest query) (parse (with_query p query))) id)
        (new_path-teammate_path id rest)
    ∙ ap (λ u. by_agent state (or_uri (at_teammate id rest query) u) id) e

-- ===== src/Proxy/Markers.antt =====
-- The marker of a subagent in a text (src/proxy/pipeline/routing.rs). `after s p` and `before s p`
-- are what follows and what precedes the first place where `s.find(p)` finds `p` in `s`.
use anycode.Base.{
  ℕ, String, ◌<>◌, ◌≡◌, ap, ◌∙◌, Bool, true, false, not, ◌&&◌, ◌||◌, Option, none, some, ◌==◌, leb,
  arith, if◌then◌else◌, ◌>>=◌,
}
use Prim.Native.Char.{Char, code}
use text.Mathlib.TextLemmas.{nil-append, cons-append, append_assoc}
use anycode.Backend.Agents.{marker_prefix, marker_suffix, format_marker}

-- `s.strip_prefix(p)`
unfoldable pub strip_prefix : String → String → Option String
strip_prefix s String.[] = some s
strip_prefix String.[] (String.◌∷◌ d p) = none
strip_prefix (String.◌∷◌ c s) (String.◌∷◌ d p) =
    let rest = strip_prefix s p in if code c == code d then rest else none

abbrev pub or_else : Option String → Option String → Option String
or_else none o = o
or_else (some s) o = some s

unfoldable pub after : String → String → Option String
unfolding strip_prefix
after String.[] p = strip_prefix "" p
after (String.◌∷◌ c s) p = let rest = after s p in or_else (strip_prefix (String.◌∷◌ c s) p) rest

abbrev before_found : Option String → Option String → Option String
before_found none o = o
before_found (some s) o = some ""

unfoldable pub before : String → String → Option String
unfolding strip_prefix
before String.[] p = before_found (strip_prefix "" p) none
before (String.◌∷◌ c s) p =
    let rest = before s p in
    before_found (strip_prefix (String.◌∷◌ c s) p) (rest >>= λ t. some (String.◌∷◌ c t))

-- `c.is_ascii_hexdigit() || c == '-' || c == '_'`
unfoldable pub is_id_char : Char → Bool
is_id_char c =
    (leb 0x30 (code c) && leb (code c) 0x39)
    || (leb 0x61 (code c) && leb (code c) 0x66)
    || (leb 0x41 (code c) && leb (code c) 0x46)
    || code c == 0x2d
    || code c == 0x5f

abbrev all_id_chars : String → Bool
all_id_chars String.[] = true
all_id_chars (String.◌∷◌ c s) = is_id_char c && all_id_chars s

-- What a marker may hold.
unfoldable pub valid_id : String → Bool
valid_id String.[] = false
valid_id (String.◌∷◌ c s) = all_id_chars (String.◌∷◌ c s)

abbrev checked : String → Option String
checked id = if valid_id id then some id else none

unfoldable pub parse_marker : String → Option String
unfolding after before valid_id
parse_marker s = after s marker_prefix >>= λ rest. before rest marker_suffix >>= checked

abbrev pub hook_context_prefix : String
hook_context_prefix = "SubagentStart hook additional context:"

unfoldable pub parse_marker_in_hook_context : String → Option String
unfolding after parse_marker
parse_marker_in_hook_context s = after s hook_context_prefix >>= parse_marker

-- No character that could begin the prefix or the suffix of a marker.
abbrev pub lacks : ℕ → String → Bool
lacks n String.[] = true
lacks n (String.◌∷◌ c s) = not (code c == n) && lacks n s

abbrev pub free_of_marker : String → Bool
free_of_marker s = lacks 0x27e8 s

pub strip_prefix-append : (p s : String) → strip_prefix (p <> s) p ≡ some s
unfolding strip_prefix
strip_prefix-append String.[] s = ap some (nil-append s)
strip_prefix-append (String.◌∷◌ c p) s =
    ap (λ t. strip_prefix t (String.◌∷◌ c p)) (cons-append c p s)
    ∙ ground (arith, strip_prefix-append p s)

after-here : (s rest p : String) → strip_prefix s p ≡ some rest → after s p ≡ some rest
unfolding after
after-here String.[] rest p e = e
after-here (String.◌∷◌ c s) rest p e = ap (λ o. or_else o (after s p)) e

-- The prefix is found behind a text that does not hold its first character.
after-marker :
    (mid s : String)
    → free_of_marker mid ≡ true
    → after (mid <> (marker_prefix <> s)) marker_prefix ≡ some s
unfolding after strip_prefix
after-marker String.[] s h =
    ap (λ t. after t marker_prefix) (nil-append (marker_prefix <> s))
    ∙ after-here (marker_prefix <> s) s marker_prefix (strip_prefix-append marker_prefix s)
after-marker (String.◌∷◌ c mid) s h =
    ap (λ t. after t marker_prefix) (cons-append c mid (marker_prefix <> s))
    ∙ ground (arith, after-marker mid s)

id_char-other : (c : Char) → is_id_char c ≡ true → (code c == 0x27e9) ≡ false
unfolding is_id_char
id_char-other c h = ground arith

pub before-here : (s rest p : String) → strip_prefix s p ≡ some rest → before s p ≡ some ""
unfolding before
before-here String.[] rest p e = ap (λ o. before_found o none) e
before-here (String.◌∷◌ c s) rest p e =
    ap (λ o. before_found o (before s p >>= λ t. some (String.◌∷◌ c t))) e

before-marker :
    (id s : String)
    → all_id_chars id ≡ true
    → before (id <> (marker_suffix <> s)) marker_suffix ≡ some id
unfolding before strip_prefix
before-marker String.[] s h =
    ap (λ t. before t marker_suffix) (nil-append (marker_suffix <> s))
    ∙ before-here (marker_suffix <> s) s marker_suffix (strip_prefix-append marker_suffix s)
before-marker (String.◌∷◌ c id) s h =
    ap (λ t. before t marker_suffix) (cons-append c id (marker_suffix <> s))
    ∙ ground (arith, before-marker id s, id_char-other c)

valid-all : (id : String) → valid_id id ≡ true → all_id_chars id ≡ true
unfolding valid_id
valid-all String.[] h = cc
valid-all (String.◌∷◌ c s) h = h

parse-marker :
    (mid id post : String)
    → free_of_marker mid ≡ true
    → valid_id id ≡ true
    → parse_marker (mid <> (marker_prefix <> (id <> (marker_suffix <> post)))) ≡ some id
unfolding parse_marker
parse-marker mid id post h v =
    ap (λ o. o >>= λ rest. before rest marker_suffix >>= checked)
      (after-marker mid (id <> (marker_suffix <> post)) h)
    ∙ ap (λ o. o >>= checked) (before-marker id post (valid-all id v))
    ∙ ap (λ t. if t then some id else none) v

-- The marker of a subagent is read back: when the first prefix of a hook's context in a text is
-- followed by any text without the first character of a marker, and then by the marker of an
-- identifier of hexadecimal digits, dashes and underscores, the identifier is found.
pub parse-format_marker :
    (s mid id post : String)
    → after s hook_context_prefix ≡ some (mid <> (format_marker id <> post))
    → free_of_marker mid ≡ true
    → valid_id id ≡ true
    → parse_marker_in_hook_context s ≡ some id
unfolding parse_marker_in_hook_context format_marker
parse-format_marker s mid id post e h v =
    ap (λ o. o >>= parse_marker) e
    ∙ ap (λ t. parse_marker (mid <> t))
        (append_assoc marker_prefix (id <> marker_suffix) post
          ∙ ap (λ t. marker_prefix <> t) (append_assoc id marker_suffix post))
    ∙ parse-marker mid id post h v

not_id : (id : String) → valid_id id ≡ false → checked id ≡ none
not_id id e = ap (λ t. if t then some id else none) e

-- Whatever the text, what is read as an identifier has only characters of an identifier, and at
-- least one.
pub parse_marker-valid :
    (s id : String) → parse_marker_in_hook_context s ≡ some id → valid_id id ≡ true
unfolding parse_marker_in_hook_context parse_marker
parse_marker-valid s id e = go (after s hook_context_prefix) e
  where
    last : (t : String) → checked t ≡ some id → valid_id id ≡ true
    last t f = ground arith

    third : (o : Option String) → (o >>= checked) ≡ some id → valid_id id ≡ true
    third none f = cc
    third (some t) f = last t f

    second :
        (o : Option String)
        → (o >>= λ rest. before rest marker_suffix >>= checked) ≡ some id
        → valid_id id ≡ true
    second none f = cc
    second (some t) f = third (before t marker_suffix) f

    go : (o : Option String) → (o >>= parse_marker) ≡ some id → valid_id id ≡ true
    go none f = cc
    go (some t) f = second (after t marker_prefix) f

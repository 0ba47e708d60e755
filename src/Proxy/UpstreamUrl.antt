-- ===== src/Proxy/UpstreamUrl.antt =====
-- src/proxy/pipeline/upstream_url.rs: the URL of a request at the backend. Texts are bytes.
use anycode.Base.{
  ℕ, ◌≡◌, ◌≢◌, refl, Bool, true, false, ◌&&◌, ◌||◌, Option, none, some, [], ◌∷◌, ◌++◌, Bytes, arith,
  ◌==◌, ==_iff, any, within, if◌then◌else◌, append_assoc, ap, ◌∙◌,
}

abbrev is_empty : Bytes → Bool
is_empty [] = true
is_empty (_ ∷ _) = false

-- `trim_end_matches('/')`
unfoldable pub trim_end : Bytes → Bytes
trim_end [] = []
trim_end (b ∷ s) = let rest = trim_end s in if b == b'/' && is_empty rest then [] else b ∷ rest

-- `str::strip_prefix`
unfoldable pub strip_prefix : Bytes → Bytes → Option Bytes
strip_prefix [] s = some s
strip_prefix (p ∷ ps) [] = none
strip_prefix (p ∷ ps) (b ∷ s) = let rest = strip_prefix ps s in if p == b then rest else none

-- What may stand behind a complete path segment.
abbrev pub ends_segment : Bytes → Bool
ends_segment [] = true
ends_segment (b ∷ _) = b == b'/' || b == b'?'

abbrev at_boundary : Option Bytes → Option Bytes
at_boundary none = none
at_boundary (some rest) = if ends_segment rest then some rest else none

unfoldable pub strip_path_prefix : Bytes → Bytes → Option Bytes
unfolding strip_prefix
strip_path_prefix path prefix = at_boundary (strip_prefix prefix path)

abbrev pub has_slash : Bytes → Bool
has_slash s = any (λ b. b == b'/') s

-- `rsplit('/').next()`: the text behind the last slash.
unfoldable pub last_segment : Bytes → Bytes
last_segment [] = []
last_segment (b ∷ s) =
    let deeper = last_segment s in if has_slash s then deeper else if b == b'/' then s else b ∷ s

abbrev pub all_digits : Bytes → Bool
all_digits [] = true
all_digits (b ∷ s) = within b'0' b'9' b && all_digits s

-- At least two bytes: `v`, then digits.
abbrev pub is_version : Bytes → Bool
is_version [] = false
is_version (b ∷ []) = false
is_version (b ∷ c ∷ s) = b == b'v' && all_digits (c ∷ s)

unfoldable pub trailing_version_segment : Bytes → Option Bytes
unfolding last_segment
trailing_version_segment base =
    if is_version (last_segment base) then some (last_segment base) else none

-- `filter(|s| !s.is_empty())`, then `strip_path_prefix`.
abbrev pub strip_explicit : Option Bytes → Bytes → Option Bytes
strip_explicit none path = none
strip_explicit (some prefix) path = if is_empty prefix then none else strip_path_prefix path prefix

abbrev pub strip_version : Option Bytes → Bytes → Option Bytes
strip_version none path = none
strip_version (some version) path = strip_path_prefix path (b'/' ∷ version)

abbrev join : Bytes → Option Bytes → Option Bytes → Bytes → Bytes
join base (some rest) versioned path = base ++ rest
join base none (some rest) path = base ++ rest
join base none none path = base ++ path

unfoldable pub build_upstream_url : Bytes → Option Bytes → Bytes → Bytes
unfolding trim_end
build_upstream_url base_url strip_request_prefix path =
    let base = trim_end base_url in
    join base (strip_explicit strip_request_prefix path)
      (strip_version (trailing_version_segment base) path) path

strip_prefix-append : (p s : Bytes) → strip_prefix p (p ++ s) ≡ some s
unfolding strip_prefix
strip_prefix-append [] s = refl
strip_prefix-append (b ∷ p) s = rw ((==_iff b b).1 refl) (strip_prefix-append p s)

trim_end-slash : (s : Bytes) → trim_end (s ++ b'/' ∷ []) ≡ trim_end s
unfolding trim_end
trim_end-slash [] = refl
trim_end-slash (b ∷ s) = rw (trim_end-slash s) refl

-- A version holds no slash.
all_digits-has_slash : (s : Bytes) → all_digits s ≡ true → has_slash s ≡ false
all_digits-has_slash [] h = refl
all_digits-has_slash (b ∷ s) h = ground (arith, all_digits-has_slash s)

is_version-has_slash : (s : Bytes) → is_version s ≡ true → has_slash s ≡ false
is_version-has_slash [] h = cc
is_version-has_slash (b ∷ []) h = cc
is_version-has_slash (b ∷ c ∷ s) h = ground (arith, all_digits-has_slash (c ∷ s))

has_slash-append : (x s : Bytes) → has_slash (x ++ b'/' ∷ s) ≡ true
has_slash-append [] s = refl
has_slash-append (b ∷ x) s = ground (arith, has_slash-append x s)

last_segment-append : (x s : Bytes) → has_slash s ≡ false → last_segment (x ++ b'/' ∷ s) ≡ s
unfolding last_segment
last_segment-append [] s h = rw h refl
last_segment-append (b ∷ x) s h = rw (has_slash-append x s) (last_segment-append x s h)

trim_end-no_slash : (b : ℕ) (s : Bytes) → has_slash (b ∷ s) ≡ false → trim_end (b ∷ s) ≡ b ∷ s
unfolding trim_end
trim_end-no_slash b [] h = ground arith
trim_end-no_slash b (c ∷ s) h = ground (arith, trim_end-no_slash c s)

is_empty-append : (x s : Bytes) → is_empty s ≡ false → is_empty (x ++ s) ≡ false
is_empty-append [] s n = n
is_empty-append (b ∷ x) s n = refl

trim_end-append : (x s : Bytes) → trim_end s ≡ s → is_empty s ≡ false → trim_end (x ++ s) ≡ x ++ s
unfolding trim_end
trim_end-append [] s e n = e
trim_end-append (b ∷ x) s e n = rw (trim_end-append x s e n, is_empty-append x s n) (ground arith)

trim_end-version : (s : Bytes) → is_version s ≡ true → trim_end (b'/' ∷ s) ≡ b'/' ∷ s
unfolding trim_end
trim_end-version [] h = cc
trim_end-version (b ∷ s) h =
    let same = trim_end-no_slash b s (is_version-has_slash (b ∷ s) h) in rw same refl

-- A base that ends with a version is kept, and its version is found.
trim_end-based : (x v : Bytes) → is_version v ≡ true → trim_end (x ++ b'/' ∷ v) ≡ x ++ b'/' ∷ v
trim_end-based x v h = trim_end-append x (b'/' ∷ v) (trim_end-version v h) refl

trailing_version_segment-based :
    (x v : Bytes) → is_version v ≡ true → trailing_version_segment (x ++ b'/' ∷ v) ≡ some v
unfolding trailing_version_segment
trailing_version_segment-based x v h =
    rw (last_segment-append x v (is_version-has_slash v h), h) refl

strip_version-based :
    (v rest : Bytes)
    → strip_version (some v) (b'/' ∷ (v ++ rest)) ≡ (if ends_segment rest then some rest else none)
unfolding strip_path_prefix
strip_version-based v rest = ap at_boundary (strip_prefix-append (b'/' ∷ v) rest)

based :
    (x v rest : Bytes)
    → is_version v ≡ true
    → build_upstream_url (x ++ b'/' ∷ v) none (b'/' ∷ (v ++ rest))
      ≡ join
          (x ++ b'/' ∷ v)
          none
          (if ends_segment rest then some rest else none)
          (b'/' ∷ (v ++ rest))
unfolding build_upstream_url
based x v rest h =
    rw (trim_end-based x v h, trailing_version_segment-based x v h, strip_version-based v rest) refl

-- What the URL has behind the base's version, for a path that is the version and then `rest`.
abbrev pub behind : Bytes → Bytes → Bytes
behind v [] = []
behind v (c ∷ s) = if c == 0x2f || c == 0x3f then c ∷ s else 0x2f ∷ (v ++ c ∷ s)

-- When the base ends with a version and no explicit prefix is configured: a request path that starts
-- with the same version has it once in the URL if the path ends there or goes on with `/` or `?`; a
-- path whose first segment only begins with the version (as `/v10` does with `/v1`) is appended as it
-- is.
pub build_upstream_url-version :
    (x v rest : Bytes)
    → is_version v ≡ true
    → build_upstream_url (x ++ b'/' ∷ v) none (b'/' ∷ (v ++ rest))
      ≡ x ++ b'/' ∷ (v ++ behind v rest)
build_upstream_url-version x v rest h =
    based x v rest h ∙ go (ends_segment rest) ∙ ap (λ t. x ++ b'/' ∷ (v ++ t)) (once rest)
  where
    once : (s : Bytes) → (if ends_segment s then s else b'/' ∷ (v ++ s)) ≡ behind v s
    once [] = refl
    once (c ∷ s) = refl

    go :
        (whole : Bool)
        → join (x ++ b'/' ∷ v) none (if whole then some rest else none) (b'/' ∷ (v ++ rest))
          ≡ x ++ b'/' ∷ (v ++ (if whole then rest else b'/' ∷ (v ++ rest)))
    go true = append_assoc x (b'/' ∷ v) rest
    go false = append_assoc x (b'/' ∷ v) (b'/' ∷ (v ++ rest))

-- An explicit prefix, not empty, is removed from a path that has it as complete segments, whatever
-- the base; and a slash at the end of the base makes no difference to any URL.
pub build_upstream_url-strip :
    (base prefix rest path : Bytes) (strip : Option Bytes)
    → prefix ≢ []
    → ends_segment rest ≡ true
    → (build_upstream_url base (some prefix) (prefix ++ rest) ≡ trim_end base ++ rest)
      × (build_upstream_url (base ++ b'/' ∷ []) strip path ≡ build_upstream_url base strip path)
unfolding build_upstream_url strip_path_prefix
build_upstream_url-strip base [] rest path strip n e = elim (n refl) [ ]
build_upstream_url-strip base (p ∷ ps) rest path strip n e =
    (rw (strip_prefix-append (p ∷ ps) rest, e) refl, rw (trim_end-slash base) refl)

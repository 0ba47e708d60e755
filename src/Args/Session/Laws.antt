-- ===== src/Args/Session/Laws.antt =====
-- Which session is resolved: the last identifier on the command line wins.
use anycode.Base.{
  ap, ◌∙◌, not, ℕ, ◌+◌, ◌-◌, String, ◌≡◌, refl, Bool, true, false, ◌&&◌, ◌||◌, Option, none, some,
  List, [], ◌∷◌, arith, length, length-append, is_some, str_eq, if◌then◌else◌, Bool-cases, inl, inr,
}
use anycode.Args.Classifier.{ClassifiedArg, wrapper_owned, intercepted}
use anycode.Args.Session.{
  SessionSource, explicit_id, resume_id, continue_last, generated, Seen, nothing_seen, take_id, see,
  see_all, resolve_session,
}

abbrev overrides_session_id : String
overrides_session_id = "--session-id: overrides previously specified session flag"

abbrev overrides_resume : String
overrides_resume = "--resume: overrides previously specified session flag"

abbrev continue_ignored : String
continue_ignored = "--continue ignored because --session-id/--resume was also specified"

abbrev continue_unresolved : String
continue_unresolved =
    "--continue: no previous session found for current directory, starting new session"

abbrev paired : Option String → SessionSource → Option (String × SessionSource)
paired none src = none
paired (some id) src = some (id, src)

-- The identifier that one argument gives.
abbrev pub id_of : ClassifiedArg → Option (String × SessionSource)
id_of (intercepted flag value) =
    if str_eq flag "--session-id"
    then paired value explicit_id
    else if str_eq flag "--resume"
    then paired value resume_id
    else none
id_of _ = none

abbrev or_else :
    Option (String × SessionSource)
    → Option (String × SessionSource)
    → Option (String × SessionSource)
or_else (some x) o = some x
or_else none o = o

-- The last identifier on the command line.
abbrev pub last_id : List ClassifiedArg → Option (String × SessionSource)
last_id [] = none
last_id (a ∷ rest) = or_else (last_id rest) (id_of a)

abbrev pub is_continue : ClassifiedArg → Bool
is_continue (intercepted flag value) =
    if str_eq flag "--session-id"
    then false
    else if str_eq flag "--resume"
    then false
    else str_eq flag "--continue"
is_continue _ = false

abbrev pub any_continue : List ClassifiedArg → Bool
any_continue [] = false
any_continue (a ∷ rest) = is_continue a || any_continue rest

abbrev pub id_count : List ClassifiedArg → ℕ
id_count [] = 0
id_count (a ∷ rest) = (if is_some (id_of a) then 1 else 0) + id_count rest

-- What the loop's variables stand for.
abbrev seen_id : Seen → Option (String × SessionSource)
seen_id s = elim s.user_session_id [
  | none ↦ none
  | some id ↦ (elim s.session_source [ none ↦ some (id, explicit_id) | some src ↦ some (id, src) ])
]

take_id-seen :
    (s : Seen) (value : Option String) (src : SessionSource) (w : String)
    → seen_id (take_id s value src w) ≡ or_else (paired value src) (seen_id s)
take_id-seen s none src w = refl
take_id-seen s (some id) src w = refl

see-seen : (s : Seen) (a : ClassifiedArg) → seen_id (see s a) ≡ or_else (id_of a) (seen_id s)
see-seen s (intercepted flag value) = elim (Bool-cases (str_eq flag "--session-id")) [
  | inl e ↦ rw e (take_id-seen s value explicit_id _)
  | inr n ↦ rw n (elim (Bool-cases (str_eq flag "--resume")) [
    | inl e ↦ rw e (take_id-seen s value resume_id _)
    | inr m ↦ rw m (ground arith)
  ])
]
see-seen s (wrapper_owned _ _) = refl
see-seen s _ = refl

or_else_assoc :
    (x y z : Option (String × SessionSource)) → or_else x (or_else y z) ≡ or_else (or_else x y) z
or_else_assoc none y z = refl
or_else_assoc (some x) y z = refl

see_all-seen :
    (cs : List ClassifiedArg) (s : Seen) → seen_id (see_all s cs) ≡ or_else (last_id cs) (seen_id s)
unfolding see_all
see_all-seen [] s = refl
see_all-seen (a ∷ rest) s =
    see_all-seen rest (see s a)
    ∙ ap (or_else (last_id rest)) (see-seen s a)
    ∙ or_else_assoc (last_id rest) (id_of a) (seen_id s)

take_id-continue :
    (s : Seen) (value : Option String) (src : SessionSource) (w : String)
    → (take_id s value src w).saw_continue ≡ s.saw_continue
take_id-continue s none src w = refl
take_id-continue s (some id) src w = refl

see-continue :
    (s : Seen) (a : ClassifiedArg) → (see s a).saw_continue ≡ s.saw_continue || is_continue a
see-continue s (intercepted flag value) = ground (
  arith,
  take_id-continue s value explicit_id overrides_session_id,
  take_id-continue s value resume_id overrides_resume,
)
see-continue s (wrapper_owned _ _) = ground arith
see-continue s _ = ground arith

see_all-continue :
    (cs : List ClassifiedArg) (s : Seen)
    → (see_all s cs).saw_continue ≡ s.saw_continue || any_continue cs
unfolding see_all
see_all-continue [] s = ground arith
see_all-continue (a ∷ rest) s = ground (arith, see_all-continue rest (see s a), see-continue s a)

-- One warning for each identifier but the first.
abbrev weight : Seen → ℕ
weight s = length s.warnings + (if is_some s.user_session_id then 1 else 0)

take_id-weight :
    (s : Seen) (value : Option String) (src : SessionSource) (w : String)
    → weight (take_id s value src w) ≡ weight s + (if is_some (paired value src) then 1 else 0)
take_id-weight s none src w = omega arith
take_id-weight s (some id) src w = ground (arith, length-append s.warnings (w ∷ []))

see-weight :
    (s : Seen) (a : ClassifiedArg)
    → weight (see s a) ≡ weight s + (if is_some (id_of a) then 1 else 0)
see-weight s (intercepted flag value) = ground (
  arith,
  take_id-weight s value explicit_id overrides_session_id,
  take_id-weight s value resume_id overrides_resume,
)
see-weight s (wrapper_owned _ _) = omega arith
see-weight s _ = omega arith

see_all-weight :
    (cs : List ClassifiedArg) (s : Seen) → weight (see_all s cs) ≡ weight s + id_count cs
unfolding see_all
see_all-weight [] s = omega arith
see_all-weight (a ∷ rest) s = omega (arith, see_all-weight rest (see s a), see-weight s a)

id_count-none : (cs : List ClassifiedArg) → last_id cs ≡ none → id_count cs ≡ 0
id_count-none [] h = refl
id_count-none (a ∷ rest) h = ground (arith, id_count-none rest)

-- The identifier and its source, by the last identifier, whether `--continue` was seen, the last
-- session on disk and the fresh identifier.
abbrev pub chosen :
    Option (String × SessionSource) → Bool → Option String → String → String × SessionSource
chosen (some x) continued last uuid = x
chosen none true (some id) uuid = (id, continue_last)
chosen none true none uuid = (uuid, generated)
chosen none false last uuid = (uuid, generated)

-- The last `--session-id` or `--resume` that has a value decides, with its own source; without one
-- `--continue` takes the last session on disk; otherwise the fresh identifier is used.
pub resolve_session-chosen :
    (last : Option String) (uuid : String) (cs : List ClassifiedArg)
    → ((resolve_session last uuid cs).session_id
        ≡ (chosen (last_id cs) (any_continue cs) last uuid).0)
      × ((resolve_session last uuid cs).source
          ≡ (chosen (last_id cs) (any_continue cs) last uuid).1)
unfolding resolve_session
resolve_session-chosen last uuid cs =
    ground (arith, see_all-seen cs nothing_seen, see_all-continue cs nothing_seen)

-- The number of warnings: one for each identifier that a later one overrides, one if `--continue`
-- is ignored, and one if it finds no session.
pub length-resolve_session-warnings :
    (last : Option String) (uuid : String) (cs : List ClassifiedArg)
    → length (resolve_session last uuid cs).warnings
      ≡ (id_count cs - 1)
        + (if any_continue cs && (is_some (last_id cs) || not (is_some last)) then 1 else 0)
unfolding resolve_session
length-resolve_session-warnings last uuid cs =
    let s = see_all nothing_seen cs in
    ground (
      arith,
      see_all-seen cs nothing_seen,
      see_all-continue cs nothing_seen,
      see_all-weight cs nothing_seen,
      id_count-none cs,
      length-append s.warnings (continue_ignored ∷ []),
      length-append s.warnings (continue_unresolved ∷ []),
    )

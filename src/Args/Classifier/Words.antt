-- ===== src/Args/Classifier/Words.antt =====
-- Classification keeps every word, in order.
use anycode.Base.{
  String, ◌≡◌, refl, Bool, true, false, Option, none, some, List, [], ◌∷◌, ◌++◌, map, arith,
  append_assoc, append-nil, ap, sym, ◌∙◌, is_some, if◌then◌else◌, Bool-cases, inl, inr,
}
use anycode.Args.Registry.{
  FlagBehavior, FlagArity, FlagDef, no_value, requires_value, optional_value,
}
use anycode.Args.Classifier.{
  ClassifiedArg, wrapper_owned, intercepted, known_passthrough, unknown_passthrough, positional,
  ClassifyResult, is_flag, peek_value, value_for, classified_as, flag_step, look_up, step,
  classify_loop, classify, unknown_value,
}

-- The words of a classified argument: a flag in its long form, then its value.
abbrev pub words : ClassifiedArg → List String
words (wrapper_owned f none) = f ∷ []
words (wrapper_owned f (some v)) = f ∷ v ∷ []
words (intercepted f none) = f ∷ []
words (intercepted f (some v)) = f ∷ v ∷ []
words (known_passthrough f none) = f ∷ []
words (known_passthrough f (some v)) = f ∷ v ∷ []
words (unknown_passthrough s) = s ∷ []
words (positional s) = s ∷ []

abbrev pub all_words : List ClassifiedArg → List String
all_words [] = []
all_words (a ∷ rest) = words a ++ all_words rest

all_words-append :
    (xs ys : List ClassifiedArg) → all_words (xs ++ ys) ≡ all_words xs ++ all_words ys
all_words-append [] ys = refl
all_words-append (x ∷ xs) ys =
    ap (λ t. words x ++ t) (all_words-append xs ys)
    ∙ sym (append_assoc (words x) (all_words xs) (all_words ys))

abbrev long_or : Option FlagDef → String → String
long_or none arg = arg
long_or (some d) arg = d.long

-- A registered flag in its long form; every other word as it is.
abbrev pub normalize : List FlagDef → String → String
normalize registry arg = if is_flag arg then long_or (look_up registry arg) arg else arg

abbrev pub taken : Bool → Option String → List String
taken true (some next) = next ∷ []
taken _ _ = []

taken-none : (c : Bool) → taken c none ≡ []
taken-none true = refl
taken-none false = refl

abbrev value_words : Option String → List String
value_words none = []
value_words (some v) = v ∷ []

words-classified_as :
    (b : FlagBehavior) (f : String) (v : Option String)
    → words (classified_as b f v) ≡ f ∷ value_words v
words-classified_as FlagBehavior.wrapper_owned f none = refl
words-classified_as FlagBehavior.wrapper_owned f (some v) = refl
words-classified_as FlagBehavior.intercepted f none = refl
words-classified_as FlagBehavior.intercepted f (some v) = refl
words-classified_as FlagBehavior.passthrough f none = refl
words-classified_as FlagBehavior.passthrough f (some v) = refl

-- A value that is taken is the next word, and is no flag.
peek_taken :
    (peek : Option String) → value_words (peek_value peek) ≡ taken (is_some (peek_value peek)) peek
peek_taken none = refl
peek_taken (some next) = ground arith

value_taken :
    (a : FlagArity) (peek : Option String)
    → value_words (value_for a peek) ≡ taken (is_some (value_for a peek)) peek
value_taken no_value none = refl
value_taken no_value (some n) = refl
value_taken requires_value peek = peek_taken peek
value_taken optional_value peek = peek_taken peek

unknown_words :
    (arg : String) (v : Option String)
    → all_words (unknown_passthrough arg ∷ unknown_value v) ≡ arg ∷ value_words v
unknown_words arg none = refl
unknown_words arg (some v) = refl

flag_step-words :
    (r : ClassifyResult) (d : Option FlagDef) (arg : String) (peek : Option String)
    → all_words (flag_step r d arg peek).0.args
      ≡ all_words r.args ++ long_or d arg ∷ taken (flag_step r d arg peek).1 peek
flag_step-words r none arg peek =
    all_words-append r.args (unknown_passthrough arg ∷ unknown_value (peek_value peek))
    ∙ ap (λ t. all_words r.args ++ t)
        (unknown_words arg (peek_value peek) ∙ ap (λ t. arg ∷ t) (peek_taken peek))
flag_step-words r (some d) arg peek =
    all_words-append r.args (classified_as d.behavior d.long (value_for d.arity peek) ∷ [])
    ∙ ap (λ t. all_words r.args ++ t)
        (append-nil _
          ∙ words-classified_as d.behavior d.long (value_for d.arity peek)
          ∙ ap (λ t. d.long ∷ t) (value_taken d.arity peek))

-- A word that is taken as a value is no flag.
peek_value-not_flag :
    (next : String) → is_some (peek_value (some next)) ≡ true → is_flag next ≡ false
peek_value-not_flag next h = ground arith

value_for-not_flag :
    (a : FlagArity) (next : String)
    → is_some (value_for a (some next)) ≡ true
    → is_flag next ≡ false
value_for-not_flag no_value next h = cc
value_for-not_flag requires_value next h = peek_value-not_flag next h
value_for-not_flag optional_value next h = peek_value-not_flag next h

flag_step-not_flag :
    (r : ClassifyResult) (d : Option FlagDef) (arg next : String)
    → (flag_step r d arg (some next)).1 ≡ true
    → is_flag next ≡ false
flag_step-not_flag r none arg next h = peek_value-not_flag next h
flag_step-not_flag r (some d) arg next h = value_for-not_flag d.arity next h

module _ (registry : List FlagDef) where
  step-words :
      (r : ClassifyResult) (arg : String) (peek : Option String)
      → all_words (step registry r arg peek).0.args
        ≡ all_words r.args ++ normalize registry arg ∷ taken (step registry r arg peek).1 peek
  unfolding step
  step-words r arg peek = elim (Bool-cases (is_flag arg)) [
    | inl flag ↦ rw flag (flag_step-words r (look_up registry arg) arg peek)
    | inr plain ↦ rw plain (all_words-append r.args (positional arg ∷ []) ∙ plain_taken peek)
  ]
    where
      plain_taken :
          (o : Option String)
          → all_words r.args ++ arg ∷ [] ≡ all_words r.args ++ arg ∷ taken false o
      plain_taken none = refl
      plain_taken (some n) = refl

  step-not_flag :
      (r : ClassifyResult) (arg next : String)
      → (step registry r arg (some next)).1 ≡ true
      → normalize registry next ≡ next
  unfolding step
  step-not_flag r arg next h = elim (Bool-cases (is_flag arg)) [
    | inl flag ↦ rw (flag_step-not_flag r (look_up registry arg) arg next (rw flag at h)) refl
    | inr plain ↦ cc plain
  ]

  loop-words :
      (raw : List String) (r : ClassifyResult)
      → all_words (classify_loop registry r raw).args
        ≡ all_words r.args ++ map (normalize registry) raw
  unfolding classify_loop
  loop-words [] r = sym (append-nil _)
  loop-words (arg ∷ []) r =
      step-words r arg none
      ∙ ap (λ t. all_words r.args ++ normalize registry arg ∷ t)
          (taken-none (step registry r arg none).1)
  loop-words (arg ∷ next ∷ rest) r =
      go (step registry r arg (some next)).0 (step registry r arg (some next)).1
        (step-words r arg (some next)) (step-not_flag r arg next) (λ q. loop-words rest q)
        (λ q. loop-words (next ∷ rest) q)
    where
      go :
          (q : ClassifyResult) (c : Bool)
          → all_words q.args ≡ all_words r.args ++ normalize registry arg ∷ taken c (some next)
          → (c ≡ true → normalize registry next ≡ next)
          → ((t : ClassifyResult)
              → all_words (classify_loop registry t rest).args
                ≡ all_words t.args ++ map (normalize registry) rest)
          → ((t : ClassifyResult)
              → all_words (classify_loop registry t (next ∷ rest)).args
                ≡ all_words t.args ++ map (normalize registry) (next ∷ rest))
          → all_words
              (if c
                then classify_loop registry q rest
                else classify_loop registry q (next ∷ rest)).args
            ≡ all_words r.args ++ map (normalize registry) (arg ∷ next ∷ rest)
      go q true e n ih ih' = rw (ih q, e, n refl) (append_assoc (all_words r.args) _ _)
      go q false e n ih ih' = rw (ih' q, e) (append_assoc (all_words r.args) _ _)

-- The words of the classified arguments are the raw arguments, in order, with each registered flag
-- in its long form: nothing is dropped, invented or moved.
pub classify-words :
    (raw : List String) (registry : List FlagDef)
    → all_words (classify raw registry).args ≡ map (normalize registry) raw
unfolding classify
classify-words raw registry = loop-words registry raw (record { args = []; warnings = [] })

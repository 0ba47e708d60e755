-- ===== src/Proxy/Transform/Reasons.antt =====
-- When a filtered body is stripped of all its thinking (src/proxy/pipeline/transform.rs).
use anycode.Base.{
  ℕ, ◌≡◌, refl, sym, ap, ◌∙◌, Bool, true, false, Option, none, some, All-map, arith, any, All, List,
  [], ◌∷◌, not, ◌&&◌, ◌||◌, ltb, ◌<◌, ◌⊎◌, inl, inr,
}
use anycode.Proxy.Json.{Json, array_at}
use anycode.Proxy.Edit.{JsonEdit}
use anycode.Proxy.Thinking.{has_history, is_thinking}
use anycode.Proxy.Thinking.Requests.{ContentAll, BodyAll}
use anycode.Proxy.Transform.{
  has_remaining_thinking_blocks, message_has_thinking, content_has_thinking, messages_have_thinking,
  should_strip_all,
}
use anycode.Proxy.Transform.Strip.{NotThinking}

any-All : {A : Type 0} (p : A → Bool) (xs : List A) → any p xs ≡ false → All (λ x. p x ≡ false) xs
any-All p [] e = tt
any-All p (x ∷ xs) e = (ground arith, any-All p xs (ground arith))

All-any : {A : Type 0} (p : A → Bool) (xs : List A) → All (λ x. p x ≡ false) xs → any p xs ≡ false
All-any p [] h = refl
All-any p (x ∷ xs) h = ground (arith, h.0, All-any p xs h.1)

pub true_ne_false : ¬ (true ≡ false)
true_ne_false e = cc

module _ {V : Type 0} {json : Json V} (edit : JsonEdit json) where
  -- No thinking block is left.
  abbrev pub NoneLeft : V → Type 0
  NoneLeft body = BodyAll json (NotThinking edit) body

  content-NotThinking :
      (m : V) → message_has_thinking edit m ≡ false → ContentAll json (NotThinking edit) m
  content-NotThinking m e items f =
      any-All (is_thinking json) items (ap (content_has_thinking edit) (sym f) ∙ e)

  NotThinking-content :
      (m : V) → ContentAll json (NotThinking edit) m → message_has_thinking edit m ≡ false
  NotThinking-content m h = go (array_at json m "content") refl
    where
      go :
          (o : Option (List V))
          → array_at json m "content" ≡ o
          → content_has_thinking edit o ≡ false
      go none e = refl
      go (some items) e = All-any (is_thinking json) items (h items e)

  remaining-NoneLeft : (body : V) → has_remaining_thinking_blocks edit body ≡ false → NoneLeft body
  unfolding has_remaining_thinking_blocks
  remaining-NoneLeft body e ms f =
      All-map (λ m. message_has_thinking edit m ≡ false) (ContentAll json (NotThinking edit))
        content-NotThinking ms
        (any-All (message_has_thinking edit) ms (ap (messages_have_thinking edit) (sym f) ∙ e))

  NoneLeft-remaining : (body : V) → NoneLeft body → has_remaining_thinking_blocks edit body ≡ false
  unfolding has_remaining_thinking_blocks
  NoneLeft-remaining body h = go (array_at json body "messages") refl
    where
      go :
          (o : Option (List V))
          → array_at json body "messages" ≡ o
          → messages_have_thinking edit o ≡ false
      go none e = refl
      go (some ms) e = All-any (message_has_thinking edit) ms (
          All-map (ContentAll json (NotThinking edit)) (λ m. message_has_thinking edit m ≡ false)
            NotThinking-content ms (h ms e))

  -- The history of a filtered body has an answer of the assistant, and it has lost a block or has no
  -- thinking block.
  abbrev pub Inconsistent : V → ℕ → Type 0
  Inconsistent filtered removed =
      (has_history json filtered ≡ true) × ((0 < removed) ⊎ NoneLeft filtered)

  -- The opposite.
  abbrev pub Consistent : V → ℕ → Type 0
  Consistent filtered removed =
      (has_history json filtered ≡ false) ⊎ ((removed ≡ 0) × ¬ (NoneLeft filtered))

  pub should_strip_all-Inconsistent :
      (filtered : V) (removed : ℕ)
      → should_strip_all edit filtered removed ≡ true
      → Inconsistent filtered removed
  should_strip_all-Inconsistent filtered removed =
      go (has_history json filtered) (has_remaining_thinking_blocks edit filtered) refl refl
    where
      go :
          (a c : Bool)
          → has_history json filtered ≡ a
          → has_remaining_thinking_blocks edit filtered ≡ c
          → (a && (ltb 0 removed || not c)) ≡ true
          → Inconsistent filtered removed
      go false c e f h = cc
      go true false e f h = (e, inr (remaining-NoneLeft filtered f))
      go true true e f h = (e, inl (ground arith))

  pub should_strip_all-Consistent :
      (filtered : V) (removed : ℕ)
      → should_strip_all edit filtered removed ≡ false
      → Consistent filtered removed
  should_strip_all-Consistent filtered removed =
      go (has_history json filtered) (has_remaining_thinking_blocks edit filtered) refl refl
    where
      go :
          (a c : Bool)
          → has_history json filtered ≡ a
          → has_remaining_thinking_blocks edit filtered ≡ c
          → (a && (ltb 0 removed || not c)) ≡ false
          → Consistent filtered removed
      go false c e f h = inl e
      go true false e f h = absurd (ground arith)
      go true true e f h =
          inr (ground arith, λ n. true_ne_false (sym f ∙ NoneLeft-remaining filtered n))

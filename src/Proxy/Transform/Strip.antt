-- ===== src/Proxy/Transform/Strip.antt =====
-- What the stripping of all thinking blocks leaves (src/proxy/pipeline/transform.rs).
use anycode.Base.{
  ℕ, String, ◌≡◌, refl, sym, ◌∙◌, subst, Bool, true, false, not, Option, none, some, List, [], ◌∷◌,
  All, str_eq, if◌then◌else◌,
}
use mathlib.Core.Option.{some-injective}
use anycode.Proxy.Json.{Json, array_at}
use anycode.Proxy.Edit.{JsonEdit}
use anycode.Proxy.Thinking.{is_thinking}
use anycode.Proxy.Thinking.Requests.{ContentAll, BodyAll}
use anycode.Proxy.Transform.{
  without_thinking, strip_content, strip_message, strip_messages, strip_all,
  strip_all_thinking_blocks,
}

module _ {V : Type 0} {json : Json V} (edit : JsonEdit json) where
  -- The item is no thinking block.
  abbrev pub NotThinking : V → Type 0
  NotThinking item = is_thinking json item ≡ false

  without_thinking-NotThinking : (items : List V) → All NotThinking (without_thinking edit items)
  without_thinking-NotThinking [] = tt
  without_thinking-NotThinking (x ∷ xs) =
      go (is_thinking json x) refl (without_thinking-NotThinking xs)
    where
      go :
          (t : Bool)
          → is_thinking json x ≡ t
          → All NotThinking (without_thinking edit xs)
          → All NotThinking
              (if not t then x ∷ without_thinking edit xs else without_thinking edit xs)
      go true e h = h
      go false e h = (e, h)

  strip_message-NotThinking : (m : V) → ContentAll json NotThinking (strip_message edit m).0
  strip_message-NotThinking m = go (array_at json m "content") refl
    where
      go :
          (o : Option (List V))
          → array_at json m "content" ≡ o
          → ContentAll json NotThinking (strip_content edit m o).0
      go none e items f = cc
      go (some content) e items f =
          subst (All NotThinking)
            (some-injective _ _ (sym (json.get_put m "content" content _ e) ∙ f))
            (without_thinking-NotThinking content)

  strip_messages-NotThinking :
      (ms : List V) (n : ℕ) → All (ContentAll json NotThinking) (strip_messages edit ms n).0
  strip_messages-NotThinking [] n = tt
  strip_messages-NotThinking (m ∷ ms) n =
      (strip_message-NotThinking m, strip_messages-NotThinking ms _)

  -- No thinking block is left in any message.
  pub strip_all-NotThinking :
      (body : V) → BodyAll json NotThinking (strip_all_thinking_blocks edit body).0
  unfolding strip_all_thinking_blocks
  strip_all-NotThinking body = go (array_at json body "messages") refl
    where
      go :
          (o : Option (List V))
          → array_at json body "messages" ≡ o
          → BodyAll json NotThinking (strip_all edit body o).0
      go none e ms f = cc
      go (some ms) e ms' f =
          subst (All (ContentAll json NotThinking))
            (some-injective _ _ (sym (json.get_put body "messages" ms _ e) ∙ f))
            (strip_messages-NotThinking ms 0)

  -- The other members are left as they are.
  pub strip_all-get :
      (body : V) (j : String)
      → str_eq "messages" j ≡ false
      → json.get (strip_all_thinking_blocks edit body).0 j ≡ json.get body j
  unfolding strip_all_thinking_blocks
  strip_all-get body j ne = go (array_at json body "messages")
    where
      go : (o : Option (List V)) → json.get (strip_all edit body o).0 j ≡ json.get body j
      go none = refl
      go (some ms) = edit.get-put_array body "messages" j _ ne

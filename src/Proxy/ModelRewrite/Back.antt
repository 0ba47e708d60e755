-- ===== src/Proxy/ModelRewrite/Back.antt =====
-- A model that was rewritten in a request is mapped back in its response.
use mathlib.Core.Option.{some-injective}
use anycode.Base.{
  String, ◌≡◌, true, false, Option, none, some, str_eq, ◌>>=◌, refl, ap, sym, ◌∙◌, if◌then◌else◌,
}
use anycode.Config.{Backend, resolve_model}
use anycode.Backend.State.Valid.{str_eq_self}
use anycode.Proxy.Json.{Json, str_at}
use anycode.Proxy.Edit.{JsonEdit}
use anycode.Proxy.Transform.{ModelMapping, rewrite_model, rewrite_found, mapped_model}
use anycode.Proxy.ModelRewrite.{reverse_model, reverse_found, set_model}

module _ {V : Type 0} {json : Json V} (edit : JsonEdit json) where
  str_at-is_object : (v : V) (k s : String) → str_at json v k ≡ some s → edit.is_object v ≡ true
  str_at-is_object v k s = go (json.get v k) refl
    where
      go :
          (o : Option V) → json.get v k ≡ o → (o >>= json.as_str) ≡ some s → edit.is_object v ≡ true
      go none e f = cc
      go (some x) e f = edit.get-is_object v x k e

  str_at-put :
      (v : V) (k s : String)
      → edit.is_object v ≡ true
      → str_at json (edit.put v k (edit.string s)) k ≡ some s
  str_at-put v k s h =
      ap (λ o. o >>= json.as_str)
        (edit.get-put v (edit.string s) k k h
          ∙ ap (λ t. if t then some (edit.string s) else json.get v k) (str_eq_self k))
      ∙ edit.as_str-string s

  mapped_model-some :
      (body : V) (original : String) (q : Option String) (mapping : ModelMapping)
      → (mapped_model edit body original q).1 ≡ some mapping
      → (some original ≡ some mapping.original)
        × ((mapped_model edit body original q).0
            ≡ edit.put body "model" (edit.string mapping.backend))
  mapped_model-some body original none mapping e = cc
  mapped_model-some body original (some new_model) mapping e =
      let same = some-injective _ mapping e in
      (
        ap (λ (m : ModelMapping). some m.original) same,
        ap (λ (m : ModelMapping). edit.put body "model" (edit.string m.backend)) same,
      )

  rewrite_found-some :
      (b : Backend) (body : V) (o : Option String) (mapping : ModelMapping)
      → (rewrite_found edit b body o).1 ≡ some mapping
      → (o ≡ some mapping.original)
        × ((rewrite_found edit b body o).0 ≡ edit.put body "model" (edit.string mapping.backend))
  rewrite_found-some b body none mapping e = cc
  rewrite_found-some b body (some model) mapping e =
      mapped_model-some body model (resolve_model b model) mapping e

  reverse_model-set :
      (mapping : ModelMapping) (response : V)
      → str_at json response "model" ≡ some mapping.backend
      → reverse_model edit mapping response ≡ some (set_model edit mapping response)
  unfolding reverse_model
  reverse_model-set mapping response f =
      ap (reverse_found edit mapping response) f
      ∙ ap (λ t. if t then some (set_model edit mapping response) else none)
          (str_eq_self mapping.backend)

  -- If the model of a request was rewritten, the request that is sent has the backend's model, and a
  -- response with the backend's model gets the model of the client's request back; its other members
  -- stay as they are.
  pub rewrite_model-reverse_model :
      (b : Backend) (body : V) (mapping : ModelMapping) (response : V) (j : String)
      → (rewrite_model edit b body).1 ≡ some mapping
      → str_at json response "model" ≡ some mapping.backend
      → str_eq "model" j ≡ false
      → (str_at json (rewrite_model edit b body).0 "model" ≡ some mapping.backend)
        × ((reverse_model edit mapping response >>= λ v. str_at json v "model")
            ≡ str_at json body "model")
        × ((reverse_model edit mapping response >>= λ v. json.get v j) ≡ json.get response j)
  unfolding rewrite_model
  rewrite_model-reverse_model b body mapping response j e f n =
      let found = rewrite_found-some b body (str_at json body "model") mapping e in
      let back = reverse_model-set mapping response f in
      let object = str_at-is_object response "model" mapping.backend f in
      (
        ap (λ v. str_at json v "model") found.1
            ∙ str_at-put body "model" mapping.backend
                (str_at-is_object body "model" mapping.original found.0),
        ap (λ o. o >>= λ v. str_at json v "model") back
            ∙ str_at-put response "model" mapping.original object
            ∙ sym found.0,
        ap (λ o. o >>= λ v. json.get v j) back
            ∙ edit.get-put response (edit.string mapping.original) "model" j object
            ∙ ap (λ t. if t then some (edit.string mapping.original) else json.get response j) n,
      )

-- ===== src/Proxy/Edit.antt =====
-- What the rewriting of a request's body uses of the crate `serde_json`: making values, and setting
-- and removing a member in place.
use anycode.Base.{
  ℕ, String, ◌≡◌, Bool, true, false, Option, none, some, List, [], ◌∷◌, str_eq, if◌then◌else◌,
}
use anycode.Proxy.Json.{Json}

-- `put v k x` is `v` after `v[k] = x` or `insert(k, x)`, `remove v k` after `remove(k)`; `object` is
-- an object with the members given, `string` and `number` are `json!`.
pub record JsonEdit {V : Type 0} (json : Json V) : Type 0 where
  pub as_bool : V → Option Bool
  pub is_object : V → Bool
  pub put : V → String → V → V
  pub remove : V → String → V
  pub string : String → V
  pub number : ℕ → V
  pub object : List (String × V) → V
  -- Only an object has members.
  pub get-is_object : (v x : V) (k : String) → json.get v k ≡ some x → is_object v ≡ true
  pub get-put :
      (v x : V) (k j : String)
      → is_object v ≡ true
      → json.get (put v k x) j ≡ (if str_eq k j then some x else json.get v j)
  pub get-remove :
      (v : V) (k j : String) → json.get (remove v k) j ≡ (if str_eq k j then none else json.get v j)
  -- Writing an array leaves the other members as they are.
  pub get-put_array :
      (v : V) (k j : String) (xs : List V)
      → str_eq k j ≡ false
      → json.get (json.put_array v k xs) j ≡ json.get v j
  pub as_str-string : (s : String) → json.as_str (string s) ≡ some s
  -- An object of two members with different names.
  pub get-object :
      (x y : V) (k j : String)
      → str_eq j k ≡ false
      → json.get (object ((k, x) ∷ (j, y) ∷ [])) k ≡ some x

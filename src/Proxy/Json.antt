-- ===== src/Proxy/Json.antt =====
-- What the proxy uses of the crate `serde_json`: reading a member, a string, a number or an array,
-- and writing an array in place.
use anycode.Base.{ℕ, String, ◌≡◌, Option, some, List, ◌>>=◌}

-- `put_array v k xs` is `v` after `*v.get_mut(k).as_array_mut() = xs`.
pub record Json (V : Type 0) : Type 0 where
  pub get : V → String → Option V
  pub as_str : V → Option String
  pub as_u64 : V → Option ℕ
  pub as_array : V → Option (List V)
  pub put_array : V → String → List V → V
  -- An array that was written is read back.
  pub get_put :
      (v : V) (k : String) (xs ys : List V)
      → (get v k >>= as_array) ≡ some xs
      → (get (put_array v k ys) k >>= as_array) ≡ some ys
  -- Writing back what was read changes nothing.
  pub put_same :
      (v : V) (k : String) (xs : List V) → (get v k >>= as_array) ≡ some xs → put_array v k xs ≡ v

module _ {V : Type 0} (json : Json V) where
  -- `v.get(k).and_then(|x| x.as_array())`, and likewise below.
  abbrev pub array_at : V → String → Option (List V)
  array_at v k = json.get v k >>= json.as_array

  abbrev pub str_at : V → String → Option String
  str_at v k = json.get v k >>= json.as_str

  abbrev pub u64_at : V → String → Option ℕ
  u64_at v k = json.get v k >>= json.as_u64

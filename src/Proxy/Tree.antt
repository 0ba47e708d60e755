-- ===== src/Proxy/Tree.antt =====
-- A JSON value for the tests, and the proof that it keeps the laws of the interface.
use anycode.Base.{
  ℕ, String, ◌≡◌, refl, Bool, Option, none, some, List, [], ◌∷◌, arith, str_eq, if◌then◌else◌,
  ◌>>=◌, ap,
}
use anycode.Proxy.Json.{Json}

mutual
  pub data Tree : Type 0 where
    null : Tree
    boolean : Bool → Tree
    number : ℕ → Tree
    text : String → Tree
    array : Trees → Tree
    object : Members → Tree

  pub data Trees : Type 0 where
    no_tree : Trees
    tree : Tree → Trees → Trees

  pub data Members : Type 0 where
    no_member : Members
    member : String → Tree → Members → Members

abbrev pub to_list : Trees → List Tree
to_list no_tree = []
to_list (tree t ts) = t ∷ to_list ts

abbrev pub of_list : List Tree → Trees
of_list [] = no_tree
of_list (t ∷ ts) = tree t (of_list ts)

abbrev pub find_member : Members → String → Option Tree
find_member no_member k = none
find_member (member j t rest) k = if str_eq j k then some t else find_member rest k

abbrev pub put_member : Members → String → List Tree → Members
put_member no_member k xs = no_member
put_member (member j t rest) k xs =
    if str_eq j k then member j (array (of_list xs)) rest else member j t (put_member rest k xs)

abbrev pub tree_get : Tree → String → Option Tree
tree_get (object ms) k = find_member ms k
tree_get _ k = none

abbrev tree_str : Tree → Option String
tree_str (text s) = some s
tree_str _ = none

abbrev tree_u64 : Tree → Option ℕ
tree_u64 (number n) = some n
tree_u64 _ = none

abbrev tree_array : Tree → Option (List Tree)
tree_array (array ts) = some (to_list ts)
tree_array _ = none

abbrev pub tree_put : Tree → String → List Tree → Tree
tree_put (object ms) k xs = object (put_member ms k xs)
tree_put v k xs = v

to_list-of_list : (xs : List Tree) → to_list (of_list xs) ≡ xs
to_list-of_list [] = refl
to_list-of_list (x ∷ xs) = ap (◌∷◌ x) (to_list-of_list xs)

of_list-to_list : (ts : Trees) → of_list (to_list ts) ≡ ts
of_list-to_list no_tree = refl
of_list-to_list (tree t ts) = ap (tree t) (of_list-to_list ts)

find-put_member :
    (ms : Members) (k : String) (xs ys : List Tree)
    → (find_member ms k >>= tree_array) ≡ some xs
    → (find_member (put_member ms k ys) k >>= tree_array) ≡ some ys
find-put_member no_member k xs ys e = cc
find-put_member (member j t rest) k xs ys e =
    ground (arith, to_list-of_list ys, find-put_member rest k xs ys)

put_member-same :
    (ms : Members) (k : String) (xs : List Tree)
    → (find_member ms k >>= tree_array) ≡ some xs
    → put_member ms k xs ≡ ms
put_member-same no_member k xs e = refl
put_member-same (member j (array ts) rest) k xs e =
    ground (arith, of_list-to_list ts, put_member-same rest k xs)
put_member-same (member j t rest) k xs e = ground (arith, put_member-same rest k xs)

pub tree_get-put :
    (v : Tree) (k : String) (xs ys : List Tree)
    → (tree_get v k >>= tree_array) ≡ some xs
    → (tree_get (tree_put v k ys) k >>= tree_array) ≡ some ys
tree_get-put (object ms) k xs ys e = find-put_member ms k xs ys e
tree_get-put _ k xs ys e = cc

pub tree_put-same :
    (v : Tree) (k : String) (xs : List Tree)
    → (tree_get v k >>= tree_array) ≡ some xs
    → tree_put v k xs ≡ v
tree_put-same (object ms) k xs e = ap object (put_member-same ms k xs e)
tree_put-same _ k xs e = cc

abbrev pub tree_json : Json Tree
tree_json = record {
  get = tree_get;
  as_str = tree_str;
  as_u64 = tree_u64;
  as_array = tree_array;
  put_array = tree_put;
  get_put = tree_get-put;
  put_same = tree_put-same;
}

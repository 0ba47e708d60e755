-- ===== src/Proxy/TreeEdit.antt =====
-- The JSON value of the tests keeps the laws of writing.
use anycode.Base.{
  String, ◌≡◌, refl, Bool, true, false, Option, none, some, List, [], ◌∷◌, arith, str_eq,
  str_eq_iff, if◌then◌else◌,
}
use anycode.Proxy.Edit.{JsonEdit}
use anycode.Proxy.Tree.{
  Tree, boolean, number, text, object, Members, no_member, member, find_member, put_member,
  tree_get, tree_put, tree_json,
}

abbrev tree_bool : Tree → Option Bool
tree_bool (boolean b) = some b
tree_bool _ = none

abbrev tree_is_object : Tree → Bool
tree_is_object (object _) = true
tree_is_object _ = false

abbrev set_member : Members → String → Tree → Members
set_member no_member k x = member k x no_member
set_member (member j t rest) k x =
    let others = set_member rest k x in if str_eq j k then member j x rest else member j t others

abbrev drop_member : Members → String → Members
drop_member no_member k = no_member
drop_member (member j t rest) k =
    let others = drop_member rest k in if str_eq j k then others else member j t others

abbrev tree_set : Tree → String → Tree → Tree
tree_set (object ms) k x = object (set_member ms k x)
tree_set v k x = v

abbrev tree_remove : Tree → String → Tree
tree_remove (object ms) k = object (drop_member ms k)
tree_remove v k = v

abbrev members_of : List (String × Tree) → Members
members_of [] = no_member
members_of ((k, x) ∷ xs) = member k x (members_of xs)

find-set_member :
    (ms : Members) (x : Tree) (k j : String)
    → find_member (set_member ms k x) j ≡ (if str_eq k j then some x else find_member ms j)
find-set_member no_member x k j = refl
find-set_member (member i t rest) x k j =
    ground (arith, find-set_member rest x k j, str_eq_iff i k, str_eq_iff k j, str_eq_iff i j)

find-drop_member :
    (ms : Members) (k j : String)
    → find_member (drop_member ms k) j ≡ (if str_eq k j then none else find_member ms j)
find-drop_member no_member k j = ground arith
find-drop_member (member i t rest) k j =
    ground (arith, find-drop_member rest k j, str_eq_iff i k, str_eq_iff k j, str_eq_iff i j)

find-put_member_other :
    (ms : Members) (k j : String) (xs : List Tree)
    → str_eq k j ≡ false
    → find_member (put_member ms k xs) j ≡ find_member ms j
find-put_member_other no_member k j xs ne = refl
find-put_member_other (member i t rest) k j xs ne =
    ground
      (arith, find-put_member_other rest k j xs ne, str_eq_iff i k, str_eq_iff i j, str_eq_iff k j)

pub tree_get-is_object : (v x : Tree) (k : String) → tree_get v k ≡ some x → tree_is_object v ≡ true
tree_get-is_object (object ms) x k e = refl
tree_get-is_object _ x k e = cc

pub tree_get-set :
    (v x : Tree) (k j : String)
    → tree_is_object v ≡ true
    → tree_get (tree_set v k x) j ≡ (if str_eq k j then some x else tree_get v j)
tree_get-set (object ms) x k j e = find-set_member ms x k j
tree_get-set _ x k j e = cc

pub tree_get-remove :
    (v : Tree) (k j : String)
    → tree_get (tree_remove v k) j ≡ (if str_eq k j then none else tree_get v j)
tree_get-remove (object ms) k j = find-drop_member ms k j
tree_get-remove _ k j = ground arith

pub tree_get-put_other :
    (v : Tree) (k j : String) (xs : List Tree)
    → str_eq k j ≡ false
    → tree_get (tree_put v k xs) j ≡ tree_get v j
tree_get-put_other (object ms) k j xs ne = find-put_member_other ms k j xs ne
tree_get-put_other _ k j xs ne = refl

abbrev tree_object : List (String × Tree) → Tree
tree_object xs = object (members_of xs)

pub tree_get-object :
    (x y : Tree) (k j : String)
    → str_eq j k ≡ false
    → tree_get (tree_object ((k, x) ∷ (j, y) ∷ [])) k ≡ some x
tree_get-object x y k j ne = ground (arith, str_eq_iff k k)

abbrev pub tree_edit : JsonEdit tree_json
tree_edit = record {
  as_bool = tree_bool;
  is_object = tree_is_object;
  put = tree_set;
  remove = tree_remove;
  string = text;
  number = number;
  object = tree_object;
  get-is_object = tree_get-is_object;
  get-put = tree_get-set;
  get-remove = tree_get-remove;
  get-put_array = tree_get-put_other;
  as_str-string = λ s. refl;
  get-object = tree_get-object;
}

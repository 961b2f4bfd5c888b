-- ===== src/Daemon/Json/Tree.antt =====
-- A JSON value as a tree: an instance of the interface on which programs and theorems can be run.
use cw_orchestrator.Common.{
  ℕ, String, ◌≡◌, refl, arith, Bool, true, false, Option, none, some, Outcome, ok, err, Map, ◌==◌,
  if◌then◌else◌, eq_iff,
}
use cw_orchestrator.Common.Dict
use cw_orchestrator.Daemon.Json.{Json, JsonLaws}

mutual
  pub data Tree : Type 0 where
    null : Tree
    text : String → Tree
    number : ℕ → Tree
    object : Fields → Tree

  pub data Fields : Type 0 where
    no_fields : Fields
    field : String → Tree → Fields → Fields

find : Fields → String → Option Tree
find no_fields k = none
find (field i v rest) k = let later = find rest k in if i == k then some v else later

replace : Fields → String → Tree → Fields
replace no_fields k x = field k x no_fields
replace (field i v rest) k x =
    let later = replace rest k x in if i == k then field i x rest else field i v later

find-replace :
    (f : Fields) (k i : String) (x : Tree)
    → find (replace f k x) i ≡ (if k == i then some x else find f i)
unfolding find replace
find-replace no_fields k i x = refl
find-replace (field h v rest) k i x =
    ground (arith, find-replace rest k i x, eq_iff h k, eq_iff h i, eq_iff k i)

tree_is_map : Tree → Bool
tree_is_map null = true
tree_is_map (text s) = false
tree_is_map (number n) = false
tree_is_map (object f) = true

tree_get : Tree → String → Option Tree
unfolding find
tree_get null k = none
tree_get (text s) k = none
tree_get (number n) k = none
tree_get (object f) k = find f k

tree_put : Tree → String → Tree → Tree
unfolding replace
tree_put null k x = object (field k x no_fields)
tree_put (text s) k x = text s
tree_put (number n) k x = number n
tree_put (object f) k x = object (replace f k x)

tree_str : Tree → Option String
tree_str null = none
tree_str (text s) = some s
tree_str (number n) = none
tree_str (object f) = none

tree_u64 : Tree → Option ℕ
tree_u64 null = none
tree_u64 (text s) = none
tree_u64 (number n) = some n
tree_u64 (object f) = none

to_map : Fields → Map Tree
to_map no_fields = Dict.empty
to_map (field i v rest) = Dict.insert (to_map rest) i v

tree_object : Tree → Option (Map Tree)
unfolding to_map
tree_object null = none
tree_object (text s) = none
tree_object (number n) = none
tree_object (object f) = some (to_map f)

abbrev pub tree_parse : Option Tree → Outcome String Tree
tree_parse none = err "no value"
tree_parse (some v) = ok v

abbrev no_tree : Option Tree → Bool
no_tree none = true
no_tree (some v) = false

unfoldable pub tree_json : Json
unfolding tree_is_map tree_get tree_put tree_str tree_u64 tree_object
tree_json = record {
  Value = Tree;
  null = null;
  empty_object = object no_fields;
  string = text;
  number = number;
  is_map = tree_is_map;
  get = tree_get;
  put = tree_put;
  as_str = tree_str;
  as_u64 = tree_u64;
  as_object = tree_object;
  Text = Option Tree;
  no_text = none;
  is_empty = no_tree;
  parse = tree_parse;
  print = some;
}

get_put :
    (v x : Tree) (k i : String)
    → tree_is_map v ≡ true
    → tree_get (tree_put v k x) i ≡ (if k == i then some x else tree_get v i)
unfolding tree_is_map tree_get tree_put find
get_put null x k i m = refl
get_put (text s) x k i m = cc
get_put (number n) x k i m = cc
get_put (object f) x k i m = find-replace f k i x

is_map_put : (v x : Tree) (k : String) → tree_is_map v ≡ true → tree_is_map (tree_put v k x) ≡ true
unfolding tree_is_map tree_put
is_map_put null x k m = refl
is_map_put (text s) x k m = cc
is_map_put (number n) x k m = cc
is_map_put (object f) x k m = refl

pub tree_json-JsonLaws : JsonLaws tree_json
unfolding tree_json
tree_json-JsonLaws = record {
  get_put = get_put;
  is_map_put = is_map_put;
  is_map_null = refl;
  is_map_empty = refl;
  get_empty = λ k. refl;
  get_null = λ k. refl;
  as_str_string = λ s. refl;
  as_str_null = refl;
  as_u64_number = λ n. refl;
  as_u64_null = refl;
  parse_print = λ v. refl;
}

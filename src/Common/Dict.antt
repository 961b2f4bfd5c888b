-- ===== src/Common/Dict.antt =====
-- `HashMap<String, V>` and `HashSet<String>` of the standard library. The representation is
-- private; clients have the laws. Iteration follows one fixed order of the entries, which the
-- standard library leaves open.
use Prim.Native.String.{String}
use mathlib.Core.Path.{◌≡◌, refl}
use mathlib.Core.Bool.{not}
use mathlib.Core.Option.{Option, none, some}
use mathlib.Core.List.{List, [], ◌∷◌}
use text.Mathlib.Text.{◌==◌}
use cw_orchestrator.Common.Tests.{if◌then◌else◌}
use cw_orchestrator.Common.Lists.{keep}

-- What is held under each key, and the keys that were inserted last, each once.
pub record Map {ℓ} (V : Type ℓ) : Type ℓ where
  held : String → Option V
  keys : List String

abbrev others : String → List String → List String
others k = keep (λ j. not (j == k))

module _ {ℓ} {V : Type ℓ} where
  pair_with : String → Option V → List (String × V) → List (String × V)
  pair_with k none rest = rest
  pair_with k (some v) rest = (k, v) ∷ rest

  pairs : (String → Option V) → List String → List (String × V)
  unfolding pair_with
  pairs held [] = []
  pairs held (k ∷ ks) = pair_with k (held k) (pairs held ks)

  -- `HashMap::new()`
  unfoldable pub empty : Map V
  empty = record { held = λ k. none; keys = [] }

  -- `m.get(k)`
  unfoldable pub get : Map V → String → Option V
  get m k = m.held k

  -- `m.insert(k, v)`
  unfoldable pub insert : Map V → String → V → Map V
  insert m k v = record {
    held = λ j. if k == j then some v else m.held j;
    keys = k ∷ others k m.keys;
  }

  -- `m.remove(k)`
  unfoldable pub remove : Map V → String → Map V
  remove m k = record { held = λ j. if k == j then none else m.held j; keys = others k m.keys }

  -- `m.iter()`
  unfoldable pub entries : Map V → List (String × V)
  unfolding pairs
  entries m = pairs m.held m.keys

  pub get-insert :
      (m : Map V) (k j : String) (v : V)
      → get (insert m k v) j ≡ (if k == j then some v else get m j)
  unfolding get insert
  get-insert m k j v = refl

  pub get-remove :
      (m : Map V) (k j : String) → get (remove m k) j ≡ (if k == j then none else get m j)
  unfolding get remove
  get-remove m k j = refl

  pub get-empty : (k : String) → get empty k ≡ none
  unfolding get empty
  get-empty k = refl

pub ruleset map_laws = (get-insert, get-remove, get-empty)

-- ===== src/Daemon/Json.antt =====
-- `serde_json::Value`, a type of a third-party crate, as a record of operations, and what its
-- documentation says of them. `cw-orch-daemon/src/json_lock.rs` is in the children.
pub mod Locked
pub mod Tree
use cw_orchestrator.Common.{
  ℕ, String, ◌≡◌, refl, arith, Bool, true, false, Option, none, some, Outcome, ok, err, panic, Map,
  ◌==◌, if◌then◌else◌, eq_refl, ◌≢◌, eq_iff,
}
use cw_orchestrator.Daemon.Error.{DaemonError}

-- `put` is `v[key] = x` on a value that is an object or null, which `is_map` tells; on any other
-- value the source panics.
pub record Json : Type 1 where
  pub Value : Type 0
  pub null : Value
  pub empty_object : Value
  pub string : String → Value
  pub number : ℕ → Value
  pub is_map : Value → Bool
  pub get : Value → String → Option Value
  pub put : Value → String → Value → Value
  pub as_str : Value → Option String
  pub as_u64 : Value → Option ℕ
  pub as_object : Value → Option (Map Value)
  pub Text : Type 0
  pub no_text : Text
  pub is_empty : Text → Bool
  pub parse : Text → Outcome String Value
  pub print : Value → Text

pub record JsonLaws (j : Json) : Type 0 where
  pub get_put :
      (v x : j.Value) (k i : String)
      → j.is_map v ≡ true
      → j.get (j.put v k x) i ≡ (if k == i then some x else j.get v i)
  pub is_map_put : (v x : j.Value) (k : String) → j.is_map v ≡ true → j.is_map (j.put v k x) ≡ true
  pub is_map_null : j.is_map j.null ≡ true
  pub is_map_empty : j.is_map j.empty_object ≡ true
  pub get_empty : (k : String) → j.get j.empty_object k ≡ none
  pub get_null : (k : String) → j.get j.null k ≡ none
  pub as_str_string : (s : String) → j.as_str (j.string s) ≡ some s
  pub as_str_null : j.as_str j.null ≡ none
  pub as_u64_number : (n : ℕ) → j.as_u64 (j.number n) ≡ some n
  pub as_u64_null : j.as_u64 j.null ≡ none
  pub parse_print : (v : j.Value) → j.parse (j.print v) ≡ ok v

module _ (j : Json) where
  abbrev or_null : Option j.Value → j.Value
  or_null none = j.null
  or_null (some v) = v

  -- `v[key]`, read
  unfoldable pub index : j.Value → String → j.Value
  index v key = or_null (j.get v key)

  -- `v[key] = x`
  unfoldable pub assign : j.Value → String → j.Value → Outcome DaemonError j.Value
  assign v key x = if j.is_map v then ok (j.put v key x) else panic

  -- `v[key][id] = x`
  unfoldable pub assign_in : j.Value → String → String → j.Value → Outcome DaemonError j.Value
  unfolding index assign
  assign_in v key id x =
      let inner = j.put v key (j.put (index v key) id x) in
      if j.is_map v then (if j.is_map (index v key) then ok inner else panic) else panic

  module _ (laws : JsonLaws j) where
    pub index-put :
        (v x : j.Value) (k i : String)
        → j.is_map v ≡ true
        → index (j.put v k x) i ≡ (if k == i then x else index v i)
    unfolding index
    index-put v x k i m = rw (laws.get_put v x k i m) (ground arith)

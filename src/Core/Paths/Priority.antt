-- ===== src/Core/Paths/Priority.antt =====
-- Which file the search of packages/cw-orch-core/src/contract/paths.rs chooses.

use cw_orchestrator.Common.{
  String, ◌≡◌, refl, ◌∙◌, arith, Bool, not, Option, none, some, List, [], ◌∷◌, ◌&&◌, if◌then◌else◌,
  ok_or, Bool-cases, inl, inr,
}
use cw_orchestrator.Core.Error.{wasm_not_found}
use cw_orchestrator.Core.Paths.{
  BuildPostfix, postfix_text, is_artifact_with_build_postfix, is_arm_artifact_with_build_postfix,
  is_default_artifact, is_default_arm_artifact, Candidates, note, scan, or, nothing, chosen,
  find_wasm_path_with_build_postfix,
}

-- The first and the last file that passes a test.
abbrev pub first_such : (String → Bool) → List String → Option String
first_such test [] = none
first_such test (f ∷ files) = let rest = first_such test files in if test f then some f else rest

abbrev pub last_such : (String → Bool) → List String → Option String
last_such test [] = none
last_such test (f ∷ files) = or (last_such test files) (if test f then some f else none)

-- `or` is associative.
or_assoc : (a b c : Option String) → or (or a b) c ≡ or a (or b c)
or_assoc (some a) b c = refl
or_assoc none b c = refl

or_none : (a : Option String) → or a none ≡ a
or_none (some a) = refl
or_none none = refl

module _ (name build_postfix : String) where
  abbrev pub has_postfix : String → Bool
  has_postfix f = is_artifact_with_build_postfix f name build_postfix

  abbrev pub has_arm_postfix : String → Bool
  has_arm_postfix f = is_arm_artifact_with_build_postfix f name build_postfix

  -- The default files that are not taken for one with the build postfix.
  abbrev pub is_plain : String → Bool
  is_plain f = not (has_arm_postfix f) && is_default_artifact f name

  abbrev pub is_plain_arm : String → Bool
  is_plain_arm f =
      not (has_arm_postfix f)
      && (not (is_default_artifact f name) && is_default_arm_artifact f name)

  -- The choice by priority: the first file with the build postfix, else the last one with it for ARM,
  -- else the last default one, else the last default one for ARM.
  unfoldable pub by_priority : List String → Option String
  by_priority files = or (first_such has_postfix files) (
      or (last_such has_arm_postfix files)
        (or (last_such is_plain files) (last_such is_plain_arm files)))

  -- What one file adds to each candidate.
  keeps_postfix :
      (f : String) (c : Candidates)
      → (note name build_postfix f c).wasm_with_postfix ≡ c.wasm_with_postfix
  unfolding note
  keeps_postfix f c = ground arith

  adds_arm :
      (f : String) (c : Candidates)
      → (note name build_postfix f c).arm_wasm_with_postfix
        ≡ or (if has_arm_postfix f then some f else none) c.arm_wasm_with_postfix
  unfolding note
  adds_arm f c = ground arith

  adds_plain :
      (f : String) (c : Candidates)
      → (note name build_postfix f c).default_wasm
        ≡ or (if is_plain f then some f else none) c.default_wasm
  unfolding note
  adds_plain f c = ground arith

  adds_plain_arm :
      (f : String) (c : Candidates)
      → (note name build_postfix f c).arm_default_wasm
        ≡ or (if is_plain_arm f then some f else none) c.arm_default_wasm
  unfolding note
  adds_plain_arm f c = ground arith

  chosen-none :
      (c : Candidates)
      → c.wasm_with_postfix ≡ none
      → chosen c ≡ or c.arm_wasm_with_postfix (or c.default_wasm c.arm_default_wasm)
  unfolding chosen
  chosen-none c h = rw (h, or_assoc c.arm_wasm_with_postfix c.default_wasm c.arm_default_wasm)

  scan-chosen :
      (files : List String) (c : Candidates)
      → c.wasm_with_postfix ≡ none
      → chosen (scan name build_postfix files c)
        ≡ or (first_such has_postfix files) (
            or (or (last_such has_arm_postfix files) c.arm_wasm_with_postfix) (
              or
                (or (last_such is_plain files) c.default_wasm)
                (or (last_such is_plain_arm files) c.arm_default_wasm)))
  unfolding scan chosen
  scan-chosen [] c h = chosen-none c h
  scan-chosen (f ∷ files) c h =
      elim (Bool-cases (is_artifact_with_build_postfix f name build_postfix)) [
        | inl e ↦ rw e
        | inr e ↦ rw (
          e,
          scan-chosen files (note name build_postfix f c) (keeps_postfix f c ∙ h),
          adds_arm f c,
          adds_plain f c,
          adds_plain_arm f c,
          or_assoc (last_such has_arm_postfix files) (if has_arm_postfix f then some f else none)
              c.arm_wasm_with_postfix,
          or_assoc (last_such is_plain files) (if is_plain f then some f else none) c.default_wasm,
          or_assoc (last_such is_plain_arm files) (if is_plain_arm f then some f else none)
              c.arm_default_wasm,
        )
      ]

-- The file that is found is chosen by priority: the first one with the build postfix, else the last one
-- with it for ARM, else the last default one, else the last default one for ARM; without any of these the
-- contract is reported as not found.
pub find_wasm_path-by_priority :
    {Price : Type 0} (dir : String) (files : List String) (name : String)
    (build_postfix : BuildPostfix Price)
    → find_wasm_path_with_build_postfix dir files name build_postfix
      ≡ ok_or (by_priority name (postfix_text build_postfix) files) (wasm_not_found name dir)
unfolding find_wasm_path_with_build_postfix by_priority
find_wasm_path-by_priority dir files name build_postfix =
    let text = postfix_text build_postfix in
    rw (
      scan-chosen name text files nothing refl,
      or_none (last_such (has_arm_postfix name text) files),
      or_none (last_such (is_plain name text) files),
      or_none (last_such (is_plain_arm name text) files),
    )

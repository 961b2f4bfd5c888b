-- ===== src/Common/Text/Substring.antt =====
-- A text contains what a part of it contains.
use Prim.Native.Char.{Char}
use Prim.Native.String.{String, [], ◌∷◌, ◌++◌}
use text.Mathlib.TextLemmas.{nil-append, cons-append}
use mathlib.Core.Path.{◌≡◌, refl}
use mathlib.Core.Bool.{true}
use native.Mathlib.Omega.{arith}
use cw_orchestrator.Common.Text.{starts_with, contains}

starts_with-append : (s t p : String) → starts_with s p ≡ true → starts_with (s ++ t) p ≡ true
unfolding starts_with
starts_with-append s t [] h = refl
starts_with-append [] t (c ∷ p) h = cc
starts_with-append (d ∷ s) t (c ∷ p) h =
    rw (cons-append d s t) (ground (arith, starts_with-append s t p))

contains_of_starts_with : (s p : String) → starts_with s p ≡ true → contains s p ≡ true
unfolding contains
contains_of_starts_with [] p h = h
contains_of_starts_with (c ∷ s) p h = ground arith

starts_with-cons :
    (c : Char) (s t p : String) → starts_with (c ∷ s) p ≡ true → starts_with (c ∷ (s ++ t)) p ≡ true
starts_with-cons c s t p h = rw (cons-append c s t) at (starts_with-append (c ∷ s) t p h)

pub contains-append_left : (s t p : String) → contains s p ≡ true → contains (s ++ t) p ≡ true
unfolding contains
contains-append_left [] t p h = contains_of_starts_with ([] ++ t) p (starts_with-append [] t p h)
contains-append_left (c ∷ s) t p h =
    rw (cons-append c s t) (ground (arith, starts_with-cons c s t p, contains-append_left s t p))

pub contains-append_right : (s t p : String) → contains t p ≡ true → contains (s ++ t) p ≡ true
unfolding contains
contains-append_right [] t p h = rw (nil-append t) h
contains-append_right (c ∷ s) t p h =
    rw (cons-append c s t) (ground (arith, contains-append_right s t p h))

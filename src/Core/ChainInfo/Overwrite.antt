-- ===== src/Core/ChainInfo/Overwrite.antt =====
-- Overwriting chain information, and the names of the kinds of chain.
use mathlib.Core.Path.{◌≡◌, refl}
use cw_orchestrator.Common.{Bool, true, arith}
use cw_orchestrator.Core.ChainInfo.{
  ChainKind, local, mainnet, testnet, unspecified, ChainInfo, to_string, from_string, default,
  overwrite_with, unless,
}

-- A kind of chain is read back from its name.
pub from_string-to_string : (k : ChainKind) → from_string (to_string k) ≡ k
unfolding from_string to_string
from_string-to_string local = refl
from_string-to_string mainnet = refl
from_string-to_string testnet = refl
from_string-to_string unspecified = refl

unless_assoc {ℓ} :
    {A : Type ℓ} (d : A → Bool) (a b c : A) → unless d (unless d a b) c ≡ unless d a (unless d b c)
unfolding unless
unless_assoc d a b c = ground arith

module _ {Price : Type 0} (nan : Price) (is_nan : Price → Bool) where
  -- Overwriting twice is overwriting once with the second information overwritten by the third.
  pub overwrite_with_assoc :
      (a b c : ChainInfo Price)
      → overwrite_with nan is_nan (overwrite_with nan is_nan a b) c
        ≡ overwrite_with nan is_nan a (overwrite_with nan is_nan b c)
  unfolding overwrite_with
  overwrite_with_assoc a b c = simp unless_assoc

  -- If the price NaN is a NaN, overwriting with the default information changes nothing.
  pub overwrite_with-default :
      is_nan nan ≡ true
      → (a : ChainInfo Price) → overwrite_with nan is_nan a (default nan is_nan) ≡ a
  unfolding overwrite_with default unless
  overwrite_with-default nan_is a = rw nan_is refl

-- ===== src/Core/ChainInfo.antt =====
-- packages/cw-orch-core/src/environment/chain_info.rs
-- The owned instance of the two generic types. A gas price, an `f64`, is of a type `Price` with the
-- test for NaN.
pub mod Overwrite
use cw_orchestrator.Common.{
  ℕ, String, Bool, true, false, Option, none, some, List, [], ◌∷◌, eqb, if◌then◌else◌, ◌==◌,
}
use cw_orchestrator.Common.Text.{is_empty}

pub record NetworkInfo : Type 0 where
  pub chain_name : String
  pub pub_address_prefix : String
  pub coin_type : ℕ

pub data ChainKind : Type 0 where
  local mainnet testnet unspecified : ChainKind

pub record ChainInfo (Price : Type 0) : Type 0 where
  pub chain_id : String
  pub gas_denom : String
  pub gas_price : Price
  pub grpc_urls : List String
  pub lcd_url : Option String
  pub fcd_url : Option String
  pub network_info : NetworkInfo
  pub kind : ChainKind

unfoldable pub default_network_info : NetworkInfo
default_network_info = record { chain_name = ""; pub_address_prefix = ""; coin_type = 118 }

-- The `Display` of `ChainKind`.
unfoldable pub to_string : ChainKind → String
to_string local = "local"
to_string testnet = "testnet"
to_string mainnet = "mainnet"
to_string unspecified = "unspecified"

-- `ChainKind::from`
unfoldable pub from_string : String → ChainKind
from_string s =
    if s == "local"
    then local
    else if s == "testnet"
    then testnet
    else if s == "mainnet"
    then mainnet
    else unspecified

-- `kind == ChainKind::Local`
unfoldable pub is_local : ChainKind → Bool
is_local local = true
is_local mainnet = false
is_local testnet = false
is_local unspecified = false

no_urls : List String → Bool
no_urls [] = true
no_urls (u ∷ us) = false

is_none : Option String → Bool
is_none none = true
is_none (some url) = false

is_unspecified : ChainKind → Bool
is_unspecified unspecified = true
is_unspecified local = false
is_unspecified mainnet = false
is_unspecified testnet = false

-- A field of the new information counts unless it has its default value.
unfoldable pub unless {ℓ} : {A : Type ℓ} → (A → Bool) → A → A → A
unless is_default old new = if is_default new then old else new

module _ {Price : Type 0} (nan : Price) (is_nan : Price → Bool) where
  unfoldable pub default : ChainInfo Price
  unfolding default_network_info
  default = record {
    chain_id = "";
    gas_denom = "";
    gas_price = nan;
    grpc_urls = [];
    lcd_url = none;
    fcd_url = none;
    network_info = default_network_info;
    kind = unspecified;
  }

  unfoldable pub config : String → ChainInfo Price
  unfolding default
  config chain_id = record default { chain_id = chain_id }

  -- `ChainInfoOwned::overwrite_with`
  unfoldable pub overwrite_with : ChainInfo Price → ChainInfo Price → ChainInfo Price
  unfolding no_urls is_none is_unspecified
  overwrite_with self new = record {
    chain_id = unless is_empty self.chain_id new.chain_id;
    gas_denom = unless is_empty self.gas_denom new.gas_denom;
    gas_price = unless is_nan self.gas_price new.gas_price;
    grpc_urls = unless no_urls self.grpc_urls new.grpc_urls;
    lcd_url = unless is_none self.lcd_url new.lcd_url;
    fcd_url = unless is_none self.fcd_url new.fcd_url;
    network_info = record {
      chain_name = unless is_empty self.network_info.chain_name new.network_info.chain_name;
      pub_address_prefix =
          unless is_empty self.network_info.pub_address_prefix new.network_info.pub_address_prefix;
      coin_type = unless (λ n. eqb n 118) self.network_info.coin_type new.network_info.coin_type;
    };
    kind = unless is_unspecified self.kind new.kind;
  }

-- ===== src/Network.antt =====
-- src/utils/elektron-network.ts and src/models/validators/bitcoin-address.validator.ts: the network that
-- is configured and the check of an address. The networks of the Bitcoin library and its
-- `toOutputScript` are parameters; of a network, the fields that an address is read with are kept.
use elektron_net_ppool.Common.{
  ℕ, ◌≡◌, refl, String, str_eq, Bool, true, false, Option, none, some, if◌then◌else◌, [], ◌∷◌,
}
use elektron_net_ppool.Common.Js.{Text, codes}
use elektron_net_ppool.Config.{Config}

pub record Network : Type 0 where
  pub bech32 : Text
  pub pub_key_hash : ℕ
  pub script_hash : ℕ

abbrev pub elektron_mainnet : Network
elektron_mainnet = record { bech32 = codes "be"; pub_key_hash = 0x00; script_hash = 0x05 }

abbrev pub elektron_regtest : Network
elektron_regtest = record { bech32 = codes "bcrt"; pub_key_hash = 0x6f; script_hash = 0xc4 }

-- The networks of the library, and whether its `toOutputScript` accepts an address.
pub record BitcoinLibrary : Type 0 where
  pub bitcoin : Network
  pub testnet : Network
  pub regtest : Network
  pub to_output_script : Text → Network → Bool

-- The `switch` over the setting.
abbrev pub network_named : BitcoinLibrary → String → Option Network
network_named lib name =
    if str_eq name "mainnet"
    then some elektron_mainnet
    else if str_eq name "regtest"
    then some elektron_regtest
    else if str_eq name "bitcoin-mainnet"
    then some lib.bitcoin
    else if str_eq name "bitcoin-testnet"
    then some lib.testnet
    else if str_eq name "bitcoin-regtest"
    then some lib.regtest
    else none

abbrev pub network_of : BitcoinLibrary → Option String → Option Network
network_of lib none = none
network_of lib (some name) = network_named lib name

unfoldable pub resolve_configured_network : BitcoinLibrary → Config → Option Network
resolve_configured_network lib config = network_of lib (config "NETWORK")

abbrev pub accepts : BitcoinLibrary → Text → Option Network → Bool
accepts lib address none = false
accepts lib address (some network) = lib.to_output_script address network

-- `isValidAddress` of the Telegram service, which rejects a missing argument and an empty one first.
unfoldable pub is_valid_address : BitcoinLibrary → Config → Option Text → Bool
unfolding resolve_configured_network
is_valid_address lib config none = false
is_valid_address lib config (some []) = false
is_valid_address lib config (some (c ∷ address)) =
    accepts lib (c ∷ address) (resolve_configured_network lib config)

abbrev pub accepts_named : BitcoinLibrary → Text → String → Bool
accepts_named lib value name =
    if str_eq name "mainnet"
    then lib.to_output_script value elektron_mainnet
    else if str_eq name "regtest"
    then lib.to_output_script value elektron_regtest
    else if str_eq name "bitcoin-mainnet"
    then lib.to_output_script value lib.bitcoin
    else if str_eq name "bitcoin-testnet"
    then lib.to_output_script value lib.testnet
    else if str_eq name "bitcoin-regtest"
    then lib.to_output_script value lib.regtest
    else false

abbrev pub accepts_setting : BitcoinLibrary → Text → Option String → Bool
accepts_setting lib value none = false
accepts_setting lib value (some name) = accepts_named lib value name

-- `validate` of BitcoinAddressValidator, which chooses the network itself.
unfoldable pub validate : BitcoinLibrary → Config → Text → Bool
validate lib config value = accepts_setting lib value (config "NETWORK")

accepts-if :
    (lib : BitcoinLibrary) (value : Text) (b : Bool) (network : Network) (o : Option Network)
    → accepts lib value (if b then some network else o)
      ≡ (if b then lib.to_output_script value network else accepts lib value o)
accepts-if lib value true network o = refl
accepts-if lib value false network o = refl

accepts-network_of :
    (lib : BitcoinLibrary) (value : Text) (setting : Option String)
    → accepts_setting lib value setting ≡ accepts lib value (network_of lib setting)
accepts-network_of lib value none = refl
accepts-network_of lib value (some name) = simp accepts-if

-- The two checks of an address agree on every address that is not empty, under every configuration.
pub validate-is_valid_address :
    (lib : BitcoinLibrary) (config : Config) (c : ℕ) (address : Text)
    → validate lib config (c ∷ address) ≡ is_valid_address lib config (some (c ∷ address))
unfolding validate is_valid_address resolve_configured_network
validate-is_valid_address lib config c address =
    accepts-network_of lib (c ∷ address) (config "NETWORK")

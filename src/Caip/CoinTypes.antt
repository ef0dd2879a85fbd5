-- ===== src/Caip/CoinTypes.antt =====
-- src/utils/crypto.rs: the chains of `ChainId`, and their coin types.
pub mod RoundTrip
use Prim.Native.String.{◌++◌}
use blockchain_api.Prelude.{
  ℕ, ◌+◌, ◌%◌, ◌^◌, Bool, ◌||◌, String, List, [], ◌∷◌, Option, none, some, ◌==◌, nat_eq, string_eq,
  any, if◌then◌else◌,
}
use blockchain_api.Prelude.Text.{decimal, parse_u64}
use blockchain_api.Caip.{split_colon}

-- A variant of `ChainId`: its number, the names that `EnumString` reads, and the one that `Display`
-- prints, which is the last of the longest where no `to_string` says it.
pub record ChainId : Type 0 where
  pub number : ℕ
  pub names : List String
  pub text' : String

abbrev chain : ℕ → List String → String → ChainId
chain number names shown = record { number = number; names = names; text' = shown }

abbrev one : ℕ → String → ChainId
one number name = chain number (name ∷ []) name

-- `EnumIter`.
abbrev pub chain_ids : List ChainId
chain_ids =
    one 2741 "abstract"
    ∷ one 33139 "ape"
    ∷ one 42161 "arbitrum"
    ∷ chain 421614 ("arbitrum-sepolia" ∷ "arbitrum_sepolia" ∷ []) "arbitrum_sepolia"
    ∷ one 1313161554 "aurora"
    ∷ chain 1313161555 ("aurora-testnet" ∷ "aurora_testnet" ∷ []) "aurora_testnet"
    ∷ one 43114 "avalanche"
    ∷ chain 43113 ("avalanche-fuji" ∷ "avalanche_fuji" ∷ []) "avalanche_fuji"
    ∷ one 8453 "base"
    ∷ chain 84532 ("base_sepolia_testnet" ∷ "base-sepolia-testnet" ∷ []) "base-sepolia-testnet"
    ∷ one 80094 "berachain"
    ∷ chain 80069 ("berachain-bepolia" ∷ "berachain_bepolia" ∷ []) "berachain_bepolia"
    ∷ chain 56 ("binance_smart_chain" ∷ "bsc" ∷ "binance-smart-chain" ∷ []) "binance-smart-chain"
    ∷ chain 97 ("binance-smart-chain-testnet" ∷ "bsc-testnet" ∷ []) "binance-smart-chain-testnet"
    ∷ one 81032 "blast"
    ∷ one 42220 "celo"
    ∷ one 25 "cronos"
    ∷ one 666666666 "degen"
    ∷ chain 1 ("ethereum" ∷ "mainnet" ∷ []) "ethereum"
    ∷ chain 17000 ("ethereum-holesky" ∷ "holesky" ∷ []) "ethereum-holesky"
    ∷ chain 560048 ("ethereum-hoodi" ∷ "hoodi" ∷ []) "ethereum-hoodi"
    ∷ one 250 "fantom"
    ∷ chain 100 ("gnosis" ∷ "gnosis_chain" ∷ "gnosis-chain" ∷ "gnosischain" ∷ "xdai" ∷ []) "xdai"
    ∷ one 5 "goerli"
    ∷ one 1625 "gravity-alpha"
    ∷ one 57073 "ink"
    ∷ one 8217 "kaia"
    ∷ one 232 "lens"
    ∷ one 59144 "linea"
    ∷ one 5000 "mantle"
    ∷ chain 5003 ("mantle-testnet" ∷ "mantle_testnet" ∷ []) "mantle_testnet"
    ∷ one 10143 "monad"
    ∷ one 1284 "moonbeam"
    ∷ chain 2810 ("morph-holesky" ∷ "morph_holesky" ∷ []) "morph_holesky"
    ∷ one 2818 "morph"
    ∷ one 10 "optimism"
    ∷ chain 11155420 ("optimism-sepolia" ∷ "optimism_sepolia" ∷ []) "optimism_sepolia"
    ∷ one 137 "polygon"
    ∷ chain 80002 ("polygon-amoy" ∷ "polygon_amoy" ∷ []) "polygon_amoy"
    ∷ chain 1101 ("polygon-zkevm" ∷ "polygon_zkevm" ∷ []) "polygon_zkevm"
    ∷ one 30 "rootstock"
    ∷ chain 31 ("rootstock-testnet" ∷ "rootstock_testnet" ∷ []) "rootstock_testnet"
    ∷ one 534352 "scroll"
    ∷ chain 534351 ("scroll-sepolia" ∷ "scroll_sepolia" ∷ []) "scroll_sepolia"
    ∷ one 1329 "sei"
    ∷ one 11155111 "sepolia"
    ∷ one 1868 "soneium"
    ∷ one 146 "sonic"
    ∷ chain 57054 ("sonic-testnet" ∷ "sonic_testnet" ∷ []) "sonic_testnet"
    ∷ one 130 "unichain"
    ∷ chain 1301 ("unichain-sepolia" ∷ "unichain_sepolia" ∷ []) "unichain_sepolia"
    ∷ one 1111 "wemix"
    ∷ chain 1112 ("wemix-testnet" ∷ "wemix_testnet" ∷ []) "wemix_testnet"
    ∷ chain 1440000 ("xrpl-evm" ∷ "xrpl_evm" ∷ []) "xrpl_evm"
    ∷ chain 1449000 ("xrpl-evm-testnet" ∷ "xrpl_evm_testnet" ∷ []) "xrpl_evm_testnet"
    ∷ one 543210 "zero"
    ∷ chain 4457845 ("zero-sepolia" ∷ "zero_sepolia" ∷ "zero-testnet" ∷ []) "zero-testnet"
    ∷ chain 324 ("zksync" ∷ "zksyncera" ∷ "zksync-era" ∷ []) "zksync-era"
    ∷ chain 300 ("zksync-era-sepolia" ∷ "zksync_sepolia" ∷ []) "zksync-era-sepolia"
    ∷ one 7777777 "zora"
    ∷ chain 999999999 ("zora-sepolia" ∷ "zora_sepolia" ∷ []) "zora_sepolia"
    ∷ []

-- `FromStr`.
find_name : String → List ChainId → Option ChainId
find_name name [] = none
find_name name (c ∷ cs) = if any (λ n. n == name) c.names then some c else find_name name cs

find_number : ℕ → List ChainId → Option ChainId
find_number number [] = none
find_number number (c ∷ cs) = if c.number == number then some c else find_number number cs

abbrev caip2_of : ℕ → String
caip2_of number = "eip155:" ++ decimal number

unfoldable pub to_caip2 : String → Option String
unfolding find_name
to_caip2 chain_name = elim (find_name chain_name chain_ids) [
  | none ↦ none
  | some c ↦ some (caip2_of c.number)
]

-- `pop` of the parts, of which there is always one.
last_part : List String → String
last_part [] = ""
last_part (part ∷ []) = part
last_part (part ∷ next ∷ parts) = last_part (next ∷ parts)

abbrev or_zero : Option ℕ → ℕ
or_zero none = 0
or_zero (some n) = n

unfoldable pub from_caip2 : String → Option String
unfolding last_part find_number
from_caip2 caip2_chain_id =
    elim (find_number (or_zero (parse_u64 (last_part (split_colon caip2_chain_id)))) chain_ids) [
      | none ↦ none
      | some c ↦ some c.text'
    ]

unfoldable pub is_supported : ℕ → Bool
is_supported chain_id = any (λ c. c.number == chain_id) chain_ids

abbrev ensip11_mainnet_coin_type : ℕ
ensip11_mainnet_coin_type = 60

-- Of 32-bit numbers: `0x80000000 | chain_id` sets the bit of 2^31, `0x7FFFFFFF & coin_type` clears
-- it.
unfoldable pub convert_evm_chain_id_to_coin_type : ℕ → ℕ
convert_evm_chain_id_to_coin_type chain_id =
    if chain_id == 1 then ensip11_mainnet_coin_type else 2 ^ 31 + chain_id % 2 ^ 31

unfoldable pub convert_coin_type_to_evm_chain_id : ℕ → ℕ
convert_coin_type_to_evm_chain_id coin_type =
    if coin_type == ensip11_mainnet_coin_type then 1 else coin_type % 2 ^ 31

unfoldable pub is_coin_type_supported : ℕ → Bool
is_coin_type_supported coin_type =
    let evm_chain_id = convert_coin_type_to_evm_chain_id coin_type in
    any (λ c. c.number == evm_chain_id) chain_ids

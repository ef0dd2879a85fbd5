-- ===== src/Errors/Namespaces.antt =====
-- src/utils/crypto.rs: `derive(Eq)` and `derive(EnumString)` of `CaipNamespaces`.
use blockchain_api.Prelude.{
  String, Option, none, some, Eq, is_yes, is_yes_iff, ◌==◌, string_eq, if◌then◌else◌,
}
use blockchain_api.Errors.{CaipNamespaces, eip155, solana, ton, rootstock}

unfoldable pub CaipNamespaces-discrete : Discrete CaipNamespaces
CaipNamespaces-discrete = hlevel

instance abbrev pub namespace_eq : Eq CaipNamespaces
namespace_eq = record {
  same = λ a b. is_yes (CaipNamespaces-discrete a b);
  same_iff = λ a b. is_yes_iff (CaipNamespaces-discrete a b);
}

unfoldable pub parse_namespace : String → Option CaipNamespaces
parse_namespace s =
    if s == "eip155"
    then some eip155
    else if s == "solana"
    then some solana
    else if s == "ton"
    then some ton
    else if s == "rootstock"
    then some rootstock
    else none

-- ===== src/Providers/Kind.antt =====
-- src/providers/mod.rs: the provider kinds, their names and the parsing of names.
use blockchain_api.Prelude.{
  String, List, [], ◌∷◌, Option, some, none, Eq, is_yes, is_yes_iff, string_eq, string_discrete,
}
pub mod Names
use blockchain_api.Prelude.Map.{get}

pub data ProviderKind : Type 0 where
  aurora arbitrum pokt binance bungee zk_sync publicnode base zora zerion coinbase one_inch
        quicknode near mantle sol_scan unichain morph tenderly dune wemix drpc syndica allnodes meld
        monad sui hiro call_static moonbeam blast rootstock lifi trongrid toncenter xrpl :
      ProviderKind
  generic : String → ProviderKind

-- `impl Display for ProviderKind`.
unfoldable pub display : ProviderKind → String
display aurora = "Aurora"
display arbitrum = "Arbitrum"
display pokt = "Pokt"
display binance = "Binance"
display bungee = "Bungee"
display zk_sync = "zkSync"
display publicnode = "Publicnode"
display base = "Base"
display zora = "Zora"
display zerion = "Zerion"
display coinbase = "Coinbase"
display one_inch = "OneInch"
display quicknode = "Quicknode"
display near = "Near"
display mantle = "Mantle"
display sol_scan = "SolScan"
display unichain = "Unichain"
display morph = "Morph"
display tenderly = "Tenderly"
display dune = "Dune"
display wemix = "Wemix"
display drpc = "Drpc"
display syndica = "Syndica"
display allnodes = "Allnodes"
display meld = "Meld"
display monad = "Monad"
display sui = "Sui"
display hiro = "Hiro"
display call_static = "CallStatic"
display moonbeam = "Moonbeam"
display blast = "Blast"
display rootstock = "Rootstock"
display lifi = "Lifi"
display trongrid = "Trongrid"
display toncenter = "Toncenter"
display xrpl = "Xrpl"
display (generic name) = name

-- The arms of the match in `from_str`, in order, but for the last.
unfoldable pub arms : List (String × ProviderKind)
arms =
    ("Aurora", aurora)
    ∷ ("Arbitrum", arbitrum)
    ∷ ("Pokt", pokt)
    ∷ ("Binance", binance)
    ∷ ("Bungee", bungee)
    ∷ ("zkSync", zk_sync)
    ∷ ("Publicnode", publicnode)
    ∷ ("Base", base)
    ∷ ("Zora", zora)
    ∷ ("Zerion", zerion)
    ∷ ("Coinbase", coinbase)
    ∷ ("OneInch", one_inch)
    ∷ ("Quicknode", quicknode)
    ∷ ("Near", near)
    ∷ ("Mantle", mantle)
    ∷ ("SolScan", sol_scan)
    ∷ ("Unichain", unichain)
    ∷ ("Morph", morph)
    ∷ ("Tenderly", tenderly)
    ∷ ("Dune", dune)
    ∷ ("Wemix", wemix)
    ∷ ("Drpc", drpc)
    ∷ ("Syndica", syndica)
    ∷ ("Allnodes", allnodes)
    ∷ ("Meld", meld)
    ∷ ("Monad", monad)
    ∷ ("Sui", sui)
    ∷ ("Hiro", hiro)
    ∷ ("CallStatic", call_static)
    ∷ ("Moonbeam", moonbeam)
    ∷ ("Blast", blast)
    ∷ ("Rootstock", rootstock)
    ∷ ("Trongrid", trongrid)
    ∷ ("Toncenter", toncenter)
    ∷ ("Xrpl", xrpl)
    ∷ []

-- The last arm, `x => Some(Self::Generic(x.to_string()))`.
abbrev pub or_generic : String → Option ProviderKind → Option ProviderKind
or_generic s (some kind) = some kind
or_generic s none = some (generic s)

unfoldable pub from_str : String → Option ProviderKind
from_str s = or_generic s (get s arms)

unfoldable pub ProviderKind-discrete : Discrete ProviderKind
ProviderKind-discrete = hlevel string_discrete

-- `derive(PartialEq, Eq, Hash)`.
instance abbrev pub kind_eq : Eq ProviderKind
kind_eq = record {
  same = λ a b. is_yes (ProviderKind-discrete a b);
  same_iff = λ a b. is_yes_iff (ProviderKind-discrete a b);
}

-- ===== src/Collections/FlowMap.antt =====
-- src/collections/FlowMap.h and FlowMap.cpp: the flows of a proxy by their two addresses. The
-- unordered_map is a list of entries; its mutex makes each method one step.
pub mod Laws
pub mod Updates
use multipath_proxy.Prelude.{
  ℕ, ◌%◌, ◌^◌, Bool, true, ◌&&◌, List, [], ◌∷◌, ◌++◌, Option, none, some, if◌then◌else◌, length,
}
use multipath_proxy.Exception.{ExceptionClass}
use multipath_proxy.Outcome.{Outcome, done, throws, ◌>>=◌}
use multipath_proxy.Text.{Text, codes, decimal}
use multipath_proxy.Net.SockAddr
use multipath_proxy.Net.SockAddr.{SockAddrIn, same_addr}
use multipath_proxy.Collections.BlockingQueue.{add64, sub64}

-- SockAddr_In_Pair
pub record SockAddrInPair : Type 0 where
  pub source : SockAddrIn
  pub destination : SockAddrIn

-- operator==
unfoldable pub same_pair : SockAddrInPair → SockAddrInPair → Bool
same_pair a b = same_addr a.source b.source && same_addr a.destination b.destination

-- The entries, and the backlog of all flows.
pub record FlowMap (F : Type 0) : Type 0 where
  pub entries : List (SockAddrInPair × F)
  pub byte_size : ℕ

-- find(key)->second
unfoldable pub lookup : {F : Type 0} → SockAddrInPair → List (SockAddrInPair × F) → Option F
lookup k [] = none
lookup k ((k', f) ∷ es) = let rest = lookup k es in if same_pair k k' then some f else rest

-- erase(iterator)
unfoldable pub remove :
    {F : Type 0} → SockAddrInPair → List (SockAddrInPair × F) → List (SockAddrInPair × F)
remove k [] = []
remove k ((k', f) ∷ es) = let rest = remove k es in if same_pair k k' then es else (k', f) ∷ rest

abbrev pub pair : SockAddrIn → SockAddrIn → SockAddrInPair
pair s d = record { source = s; destination = d }

module _ {F : Type 0} where
  -- Find
  unfoldable pub find : SockAddrIn → SockAddrIn → FlowMap F → Option F
  find s d m = lookup (pair s d) m.entries

  -- Insert, which does not replace an entry.
  unfoldable pub insert : SockAddrIn → SockAddrIn → F → FlowMap F → FlowMap F
  insert s d f m = elim (lookup (pair s d) m.entries) [
    | none ↦ record m { entries = (pair s d, f) ∷ m.entries }
    | some _ ↦ m
  ]

  -- Erase
  unfoldable pub erase : SockAddrIn → SockAddrIn → FlowMap F → Outcome (FlowMap F)
  erase s d m = elim (lookup (pair s d) m.entries) [
    | none ↦ throws (record {
      class = ExceptionClass.not_found_exception;
      message =
          codes "key="
          ++ (SockAddr.to_string s
              ++ (codes "|" ++ (SockAddr.to_string d ++ codes " not found in map.")));
    })
    | some _ ↦ done (record m { entries = remove (pair s d) m.entries })
  ]

  -- Size
  abbrev pub map_size : FlowMap F → ℕ
  map_size m = length m.entries

  -- addByteSize and subByteSize
  unfoldable pub add_byte_size : ℕ → FlowMap F → FlowMap F
  add_byte_size n m = record m { byte_size = add64 m.byte_size n }

  unfoldable pub sub_byte_size : ℕ → FlowMap F → FlowMap F
  sub_byte_size n m = record m { byte_size = sub64 m.byte_size n }

  unfoldable pub to_string : FlowMap F → Text
  to_string m = codes "FlowMap[Size=" ++ (decimal (map_size m) ++ codes "]")

-- ===== src/Collections/FlowMap/Updates.antt =====
-- FlowMap as a map by two addresses (src/collections/FlowMap.h, FlowMap.cpp): what Insert and Erase
-- change, and for which addresses, where addresses are the same if all their fields are.
use mathlib.Core.Bool.{false}
use multipath_proxy.Prelude.{
  ◌≡◌, ◌∙◌, refl, sym, ap, ◌++◌, inl, inr, Option, none, some, arith, Bool-cases, Option-cases,
}
use multipath_proxy.Exception.{Exception, ExceptionClass}
use multipath_proxy.Outcome.{done, throws, done-injective}
use multipath_proxy.Text.{codes}
use multipath_proxy.Net.SockAddr
use multipath_proxy.Net.SockAddr.{SockAddrIn}
use multipath_proxy.Collections.FlowMap.{
  FlowMap, SockAddrInPair, same_pair, lookup, pair, find, insert, erase,
}
use multipath_proxy.Collections.FlowMap.Laws.{
  Unique, or_else, find-insert, find-erase, insert-Unique, same_pair→eq, same_pair_refl,
}

-- One of the addresses differs.
abbrev pub Differs : SockAddrIn → SockAddrIn → SockAddrIn → SockAddrIn → Type 0
Differs a b s d = ¬ ((a ≡ s) × (b ≡ d))

Differs-same_pair :
    (a b s d : SockAddrIn) → Differs a b s d → same_pair (pair a b) (pair s d) ≡ false
Differs-same_pair a b s d other = elim (Bool-cases (same_pair (pair a b) (pair s d))) [
  | inl same ↦
      let e = same_pair→eq (pair a b) (pair s d) same in
      absurd (
        other
          (ap (λ (k : SockAddrInPair). k.source) e, ap (λ (k : SockAddrInPair). k.destination) e))
  | inr differ ↦ differ
]

-- The exception of Erase.
abbrev missing : SockAddrIn → SockAddrIn → Exception
missing s d = record {
  class = ExceptionClass.not_found_exception;
  message =
      codes "key="
      ++ (SockAddr.to_string s
          ++ (codes "|" ++ (SockAddr.to_string d ++ codes " not found in map.")));
}

module _ {F : Type 0} where
  -- `n` is `m` but for what is under the two addresses.
  pub record Updates (s d : SockAddrIn) (there : Option F) (m n : FlowMap F) : Type 0 where
    pub here : find s d n ≡ there
    pub elsewhere : (a b : SockAddrIn) → Differs a b s d → find a b n ≡ find a b m
    pub unique : Unique n.entries
    pub same_backlog : n.byte_size ≡ m.byte_size

  -- What Erase comes to.
  pub data ErasesTo (s d : SockAddrIn) (m : FlowMap F) : Type 0 where
    erased : (n : FlowMap F) → erase s d m ≡ done n → Updates s d none m n → ErasesTo s d m
    not_found :
        (e : Exception)
        → erase s d m ≡ throws e
        → e.class ≡ ExceptionClass.not_found_exception
        → find s d m ≡ none
        → ErasesTo s d m

  byte_size-insert :
      (s d : SockAddrIn) (f : F) (m : FlowMap F) → (insert s d f m).byte_size ≡ m.byte_size
  unfolding insert
  byte_size-insert s d f m = ground arith

  insert-Updates :
      (s d : SockAddrIn) (f : F) (m : FlowMap F)
      → Unique m.entries
      → Updates s d (some (or_else (find s d m) f)) m (insert s d f m)
  insert-Updates s d f m u = record {
    here = find-insert s d s d f m ∙ rw (same_pair_refl (pair s d)) refl;
    elsewhere = λ a b other. find-insert s d a b f m ∙ rw (Differs-same_pair a b s d other) refl;
    unique = insert-Unique s d f m u;
    same_backlog = byte_size-insert s d f m;
  }

  throws_missing :
      (s d : SockAddrIn) (m : FlowMap F)
      → lookup (pair s d) m.entries ≡ none
      → erase s d m ≡ throws (missing s d)
  unfolding erase
  throws_missing s d m e = rw (e, erase) refl

  erase-ErasesTo : (s d : SockAddrIn) (m : FlowMap F) → Unique m.entries → ErasesTo s d m
  unfolding find
  erase-ErasesTo s d m u = elim (Option-cases (find s d m)) [
    | inl e ↦ not_found (missing s d) (throws_missing s d m e) refl e
    | inr (f, e) ↦
        let (n, is, gone, unique, backlog) = find-erase s d s d f m u e in
        erased n is (record {
          here = gone ∙ rw (same_pair_refl (pair s d)) refl;
          elsewhere = λ a b other. found_elsewhere a b s d f m n u e is other;
          unique = unique;
          same_backlog = backlog;
        })
  ]
    where
      found_elsewhere :
          (a b s d : SockAddrIn) (f : F) (m n : FlowMap F)
          → Unique m.entries
          → find s d m ≡ some f
          → erase s d m ≡ done n
          → Differs a b s d
          → find a b n ≡ find a b m
      found_elsewhere a b s d f m n u e is other =
          let (n', is', there, rest, backlog) = find-erase s d a b f m u e in
          let same : n' ≡ n = done-injective (sym is' ∙ is) in
          ap (find a b) (sym same) ∙ there ∙ rw (Differs-same_pair a b s d other) refl

  -- In a map without a double key, Insert leaves under its two addresses the flow that was there
  -- before, or else the new one, and Erase removes the flow, or throws NotFoundException if there
  -- is none; where one of the two addresses differs in any field, Find gives what it gave before;
  -- and both leave the backlog, and a map without a double key.
  pub insert-erase-Updates :
      (s d : SockAddrIn) (f : F) (m : FlowMap F)
      → Unique m.entries
      → Updates s d (some (or_else (find s d m) f)) m (insert s d f m) × ErasesTo s d m
  insert-erase-Updates s d f m u = (insert-Updates s d f m u, erase-ErasesTo s d m u)

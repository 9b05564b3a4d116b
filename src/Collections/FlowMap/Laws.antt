-- ===== src/Collections/FlowMap/Laws.antt =====
-- FlowMap as a finite map: what Find gives after Insert and Erase.
use mathlib.Core.Bool.{false}
use mathlib.Core.Path.{subst}
use multipath_proxy.Prelude.{
  ◌≡◌, refl, sym, ap, ◌∙◌, inl, inr, Bool, true, List, [], ◌∷◌, Option, none, some, arith,
  if◌then◌else◌, ==_iff, Bool-cases, Option-cases,
}
use multipath_proxy.Outcome.{done}
use multipath_proxy.Net.SockAddr.{SockAddrIn, same_addr}
use multipath_proxy.Collections.FlowMap.{
  SockAddrInPair, same_pair, FlowMap, lookup, remove, pair, find, insert, erase,
}

same_addr→eq : (a b : SockAddrIn) → same_addr a b ≡ true → a ≡ b
same_addr→eq a b e = λ i. record {
  sin_family = (==_iff a.sin_family b.sin_family).0 (ground arith) i;
  sin_port = (==_iff a.sin_port b.sin_port).0 (ground arith) i;
  sin_addr = (==_iff a.sin_addr b.sin_addr).0 (ground arith) i;
}

same_addr_refl : (a : SockAddrIn) → same_addr a a ≡ true
same_addr_refl a = ground arith

pub same_pair→eq : (k l : SockAddrInPair) → same_pair k l ≡ true → k ≡ l
unfolding same_pair
same_pair→eq k l e = λ i. record {
  source = same_addr→eq k.source l.source (ground arith) i;
  destination = same_addr→eq k.destination l.destination (ground arith) i;
}

pub same_pair_refl : (k : SockAddrInPair) → same_pair k k ≡ true
unfolding same_pair
same_pair_refl k = rw (same_addr_refl k.source, same_addr_refl k.destination) refl

not_same : (k k' l : SockAddrInPair) → same_pair k k' ≡ false → l ≡ k' → same_pair l k ≡ false
not_same k k' l differ e = elim (Bool-cases (same_pair l k)) [
  | inl same ↦
      let equal : same_pair k k' ≡ true =
        ap (same_pair k) (sym e ∙ same_pair→eq l k same) ∙ same_pair_refl k in
      absurd cc
  | inr other ↦ other
]

module _ {F : Type 0} where
  remove_head :
      (k k' : SockAddrInPair) (f : F) (es : List (SockAddrInPair × F))
      → same_pair k k' ≡ true
      → remove k ((k', f) ∷ es) ≡ es
  unfolding remove
  remove_head k k' f es e = rw e refl

  remove_tail :
      (k k' : SockAddrInPair) (f : F) (es : List (SockAddrInPair × F))
      → same_pair k k' ≡ false
      → remove k ((k', f) ∷ es) ≡ (k', f) ∷ remove k es
  unfolding remove
  remove_tail k k' f es e = rw e refl

  -- No key twice.
  abbrev pub Unique : List (SockAddrInPair × F) → Type 0
  Unique [] = Unit {0}
  Unique ((k, f) ∷ es) = (lookup k es ≡ none) × Unique es

  abbrev pub or_else : Option F → F → F
  or_else none f = f
  or_else (some g) f = g

  insert_new :
      (s d : SockAddrIn) (f : F) (m : FlowMap F)
      → lookup (pair s d) m.entries ≡ none
      → insert s d f m ≡ record m { entries = (pair s d, f) ∷ m.entries }
  unfolding insert
  insert_new s d f m e = rw (e, insert) refl

  insert_old :
      (s d : SockAddrIn) (f g : F) (m : FlowMap F)
      → lookup (pair s d) m.entries ≡ some g
      → insert s d f m ≡ m
  unfolding insert
  insert_old s d f g m e = rw (e, insert) refl

  lookup_same :
      (k l : SockAddrInPair) (es : List (SockAddrInPair × F)) (r : Option F)
      → lookup k es ≡ r
      → lookup l es ≡ (if same_pair l k then r else lookup l es)
  lookup_same k l es r e = elim (Bool-cases (same_pair l k)) [
    | inl same ↦ rw same (ap (λ x. lookup x es) (same_pair→eq l k same) ∙ e)
    | inr other ↦ rw other refl
  ]

  find-insert_new :
      (s d s' d' : SockAddrIn) (f : F) (m : FlowMap F)
      → lookup (pair s d) m.entries ≡ none
      → find s' d' (insert s d f m) ≡ (
          if same_pair (pair s' d') (pair s d) then some (or_else (find s d m) f) else find s' d' m)
  unfolding find lookup
  find-insert_new s d s' d' f m e = rw (insert_new s d f m e, e) refl

  find-insert_old :
      (s d s' d' : SockAddrIn) (f g : F) (m : FlowMap F)
      → lookup (pair s d) m.entries ≡ some g
      → find s' d' (insert s d f m) ≡ (
          if same_pair (pair s' d') (pair s d) then some (or_else (find s d m) f) else find s' d' m)
  unfolding find
  find-insert_old s d s' d' f g m e =
      rw (insert_old s d f g m e, e) (lookup_same (pair s d) (pair s' d') m.entries (some g) e)

  pub find-insert :
      (s d s' d' : SockAddrIn) (f : F) (m : FlowMap F)
      → find s' d' (insert s d f m) ≡ (
          if same_pair (pair s' d') (pair s d) then some (or_else (find s d m) f) else find s' d' m)
  find-insert s d s' d' f m = elim (Option-cases (lookup (pair s d) m.entries)) [
    | inl e ↦ find-insert_new s d s' d' f m e
    | inr (g, e) ↦ find-insert_old s d s' d' f g m e
  ]

  -- Insert keeps the keys unique.
  pub insert-Unique :
      (s d : SockAddrIn) (f : F) (m : FlowMap F)
      → Unique m.entries
      → Unique (insert s d f m).entries
  insert-Unique s d f m u = elim (Option-cases (lookup (pair s d) m.entries)) [
    | inl e ↦ subst (λ (x : FlowMap F). Unique x.entries) (sym (insert_new s d f m e)) (e, u)
    | inr (g, e) ↦ subst (λ (x : FlowMap F). Unique x.entries) (sym (insert_old s d f g m e)) u
  ]

  lookup-remove_head :
      (k l k' : SockAddrInPair) (f : F) (es : List (SockAddrInPair × F))
      → lookup k' es ≡ none
      → k ≡ k'
      → lookup l es ≡ (if same_pair l k then none else lookup l ((k', f) ∷ es))
  unfolding lookup
  lookup-remove_head k l k' f es u e = elim (Bool-cases (same_pair l k)) [
    | inl same ↦ rw same (ap (λ x. lookup x es) (same_pair→eq l k same ∙ e) ∙ u)
    | inr other ↦
        let far : same_pair l k' ≡ false = ap (same_pair l) (sym e) ∙ other in rw (other, far) refl
  ]

  lookup-remove_tail :
      (k l k' : SockAddrInPair) (f : F) (es es' : List (SockAddrInPair × F))
      → same_pair k k' ≡ false
      → lookup l es' ≡ (if same_pair l k then none else lookup l es)
      → lookup l ((k', f) ∷ es') ≡ (if same_pair l k then none else lookup l ((k', f) ∷ es))
  unfolding lookup
  lookup-remove_tail k l k' f es es' differ rest = elim (Bool-cases (same_pair l k')) [
    | inl same ↦
        let away : same_pair l k ≡ false = not_same k k' l differ (same_pair→eq l k' same) in
        rw (same, away) refl
    | inr other ↦ rw other rest
  ]

  lookup-remove :
      (k l : SockAddrInPair) (es : List (SockAddrInPair × F))
      → Unique es
      → lookup l (remove k es) ≡ (if same_pair l k then none else lookup l es)
  unfolding remove
  lookup-remove k l [] u = lookup_same k l [] none (unfold lookup in refl)
  lookup-remove k l ((k', f) ∷ es) u = elim (Bool-cases (same_pair k k')) [
    | inl same ↦
        ap (lookup l) (remove_head k k' f es same)
        ∙ lookup-remove_head k l k' f es u.0 (same_pair→eq k k' same)
    | inr other ↦
        ap (lookup l) (remove_tail k k' f es other)
        ∙ lookup-remove_tail k l k' f es (remove k es) other (lookup-remove k l es u.1)
  ]

  none_either : (b : Bool) (o : Option F) → o ≡ none → (if b then none else o) ≡ none
  none_either true o e = refl
  none_either false o e = e

  remove-Unique :
      (k : SockAddrInPair) (es : List (SockAddrInPair × F)) → Unique es → Unique (remove k es)
  remove-Unique k [] u = unfold remove in tt
  remove-Unique k ((k', f) ∷ es) u = elim (Bool-cases (same_pair k k')) [
    | inl same ↦ subst Unique (sym (remove_head k k' f es same)) u.1
    | inr other ↦ subst Unique (sym (remove_tail k k' f es other)) (
      lookup-remove k k' es u.1 ∙ none_either (same_pair k' k) (lookup k' es) u.0,
      remove-Unique k es u.1,
    )
  ]

  erase_found :
      (s d : SockAddrIn) (f : F) (m : FlowMap F)
      → lookup (pair s d) m.entries ≡ some f
      → erase s d m ≡ done (record m { entries = remove (pair s d) m.entries })
  unfolding erase
  erase_found s d f m e = rw (e, erase) refl

  -- Erase of addresses that are in a map without a double key succeeds: they are gone, every other
  -- pair of addresses keeps its flow, the keys stay unique, and the backlog stays.
  pub find-erase :
      (s d s' d' : SockAddrIn) (f : F) (m : FlowMap F)
      → Unique m.entries
      → find s d m ≡ some f
      → (m' : FlowMap F) × (erase s d m ≡ done m')
        × (find s' d' m' ≡ (if same_pair (pair s' d') (pair s d) then none else find s' d' m))
        × Unique m'.entries
        × (m'.byte_size ≡ m.byte_size)
  unfolding find
  find-erase s d s' d' f m u e = (
    record m { entries = remove (pair s d) m.entries },
    erase_found s d f m e,
    lookup-remove (pair s d) (pair s' d') m.entries u,
    remove-Unique (pair s d) m.entries u,
    refl,
  )

-- ===== src/Shared/StdMap/Sorted.antt =====
-- The entries stay in the order of their keys, so `begin()` is the least and no key stands twice.
use carf_lib.Shared.{◌≡◌, refl, true, none, some, List, [], ◌∷◌, arith}
use carf_lib.Shared.StdMap.{Key, lookup, assign, insert, erase}

module _ {ℓ κ} {K : Type ℓ} {V : Type κ} ⦃o : Key K⦄ where
  -- Every key of the map comes after `k`.
  abbrev pub Above : K → List (K × V) → Type 0
  Above k [] = Unit {0}
  Above k ((j, w) ∷ m) = (o.lt k j ≡ true) × Above k m

  abbrev pub IsSorted : List (K × V) → Type 0
  IsSorted [] = Unit {0}
  IsSorted ((k, v) ∷ m) = Above k m × IsSorted m

  pub Above-trans : (k j : K) (m : List (K × V)) → o.lt k j ≡ true → Above j m → Above k m
  Above-trans k j [] h a = tt
  Above-trans k j ((i, w) ∷ m) h a = (o.lt_trans k j i h a.0, Above-trans k j m h a.1)

  Above-assign :
      (i k : K) (v : V) (m : List (K × V)) → o.lt i k ≡ true → Above i m → Above i (assign k v m)
  unfolding assign
  Above-assign i k v [] h a = (h, tt)
  Above-assign i k v ((j, w) ∷ m) h a = ground (arith, Above-assign i k v m h a.1)

  pub assign-IsSorted : (k : K) (v : V) (m : List (K × V)) → IsSorted m → IsSorted (assign k v m)
  unfolding assign
  assign-IsSorted k v [] s = (tt, tt)
  assign-IsSorted k v ((j, w) ∷ m) s = ground (
    arith,
    o.eq_iff j k,
    o.lt_tri k j,
    Above-trans k j m,
    Above-assign j k v m,
    assign-IsSorted k v m s.1,
  )

  Above-insert :
      (i k : K) (v : V) (m : List (K × V)) → o.lt i k ≡ true → Above i m → Above i (insert k v m)
  unfolding insert
  Above-insert i k v [] h a = (h, tt)
  Above-insert i k v ((j, w) ∷ m) h a = ground (arith, Above-insert i k v m h a.1)

  pub insert-IsSorted : (k : K) (v : V) (m : List (K × V)) → IsSorted m → IsSorted (insert k v m)
  unfolding insert
  insert-IsSorted k v [] s = (tt, tt)
  insert-IsSorted k v ((j, w) ∷ m) s = ground (
    arith,
    o.eq_iff j k,
    o.lt_tri k j,
    Above-trans k j m,
    Above-insert j k v m,
    insert-IsSorted k v m s.1,
  )

  Above-erase : (i k : K) (m : List (K × V)) → Above i m → Above i (erase k m)
  unfolding erase
  Above-erase i k [] a = tt
  Above-erase i k ((j, w) ∷ m) a = ground (arith, Above-erase i k m a.1)

  pub erase-IsSorted : (k : K) (m : List (K × V)) → IsSorted m → IsSorted (erase k m)
  unfolding erase
  erase-IsSorted k [] s = tt
  erase-IsSorted k ((j, w) ∷ m) s = ground (arith, Above-erase j k m s.0, erase-IsSorted k m s.1)

  pub lookup-Above : (k : K) (m : List (K × V)) → Above k m → lookup k m ≡ none
  unfolding lookup
  lookup-Above k [] a = refl
  lookup-Above k ((j, w) ∷ m) a = ground (arith, o.eq_iff j k, o.lt_irrefl k, lookup-Above k m a.1)

  -- An entry that is there already stays as it is, and so do all others.
  pub insert_old :
      (k : K) (v w : V) (m : List (K × V)) → IsSorted m → lookup k m ≡ some w → insert k v m ≡ m
  unfolding lookup insert
  insert_old k v w [] s h = cc
  insert_old k v w ((j, u) ∷ m) s h =
      ground (arith, o.eq_iff j k, lookup-Above k m, Above-trans k j m, insert_old k v w m s.1)

-- ===== src/Shared/StdMap/Extensional.antt =====
-- Two maps with the same entry for every key are equal.
use carf_lib.Shared.{
  ◌≡◌, refl, sym, ◌∙◌, inl, inr, false, none, some, List, [], ◌∷◌, Bool-cases, some_eq, subst, ap₂,
}
use carf_lib.Shared.StdMap.{Key, lookup}
use carf_lib.Shared.StdMap.Sorted.{IsSorted, Above, Above-trans, lookup-Above}

module _ {ℓ κ} {K : Type ℓ} {V : Type κ} ⦃o : Key K⦄ where
  lookup_first : (k : K) (v : V) (m : List (K × V)) → lookup k ((k, v) ∷ m) ≡ some v
  unfolding lookup
  lookup_first k v m = rw ((o.eq_iff k k).1 refl)

  lookup_behind :
      (i k : K) (v : V) (m : List (K × V)) → o.eq k i ≡ false → lookup i ((k, v) ∷ m) ≡ lookup i m
  unfolding lookup
  lookup_behind i k v m e = rw e

  -- The first keys of two maps that agree are the same.
  first_keys :
      (j k : K) (v w : V) (m n : List (K × V))
      → IsSorted ((j, v) ∷ m)
      → IsSorted ((k, w) ∷ n)
      → ((i : K) → lookup i ((j, v) ∷ m) ≡ lookup i ((k, w) ∷ n))
      → o.lt j k ≡ false
  first_keys j k v w m n s t same = elim (Bool-cases (o.lt j k)) [
    | inr e ↦ e
    | inl before ↦
        let missing : lookup j ((k, w) ∷ n) ≡ none =
          lookup-Above j ((k, w) ∷ n) (before, Above-trans j k n before t.0) in
        absurd (let no = sym (lookup_first j v m) ∙ same j ∙ missing in cc)
  ]

  tails :
      (k : K) (v w : V) (m n : List (K × V))
      → Above k m
      → Above k n
      → ((i : K) → lookup i ((k, v) ∷ m) ≡ lookup i ((k, w) ∷ n))
      → (i : K) → lookup i m ≡ lookup i n
  tails k v w m n a b same i = elim (Bool-cases (o.eq k i)) [
    | inl here ↦
        let p = (o.eq_iff k i).0 here in
        subst (λ j. lookup j m ≡ lookup j n) p (lookup-Above k m a ∙ sym (lookup-Above k n b))
    | inr other ↦ sym (lookup_behind i k v m other) ∙ same i ∙ lookup_behind i k w n other
  ]

  -- Maps in order are known from what they have at every key.
  pub map_ext :
      (m n : List (K × V)) → IsSorted m → IsSorted n → ((i : K) → lookup i m ≡ lookup i n) → m ≡ n
  map_ext [] [] s t same = refl
  map_ext [] ((k, w) ∷ n) s t same =
      absurd (let no = same k ∙ lookup_first k w n in unfold lookup in cc)
  map_ext ((j, v) ∷ m) [] s t same =
      absurd (let no = sym (same j) ∙ lookup_first j v m in unfold lookup in cc)
  map_ext ((j, v) ∷ m) ((k, w) ∷ n) s t same =
      let p : j ≡ k =
        o.lt_tri j k (first_keys j k v w m n s t same)
          (first_keys k j w v n m t s (λ i. sym (same i))) in
      let same_k = subst (λ x. (i : K) → lookup i ((x, v) ∷ m) ≡ lookup i ((k, w) ∷ n)) p same in
      let q : v ≡ w = some_eq (sym (lookup_first k v m) ∙ same_k k ∙ lookup_first k w n) in
      let rest = map_ext m n s.1 t.1 (tails k v w m n (subst (λ x. Above x m) p s.0) t.0 same_k) in
      ap₂ (λ (e : K × V) l. e ∷ l) (ap₂ (λ (x : K) (y : V). (x, y)) p q) rest

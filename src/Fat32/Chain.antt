-- ===== src/Fat32/Chain.antt =====
-- The chain of clusters that `cluster_chain` follows.
use sar_osx.Base.{
  All, ℕ, zero, suc, ◌≤◌, ◌≡◌, refl, ap, ◌∙◌, inl, inr, Option, none, some, List, [], ◌∷◌, arith,
  leb, leb→le, Bool-cases, length,
}
use mathlib.Core.Path.{subst}
use sar_osx.Base.Result.{Result, ok, err, ◌>>=◌}
use sar_osx.Fat32.{Disk, Fat32Ctx, next_cluster, follow, chain_from, cluster_chain}

-- Each cluster but the last is followed by the one that the table names.
abbrev pub Linked : Disk → Fat32Ctx → List ℕ → Type 0
Linked disk ctx [] = Unit
Linked disk ctx (c ∷ []) = Unit
Linked disk ctx (c ∷ d ∷ rest) =
    (next_cluster disk ctx c ≡ ok (some d)) × Linked disk ctx (d ∷ rest)

abbrev pub StartsAt : Option ℕ → List ℕ → Type 0
StartsAt o [] = Unit
StartsAt o (c ∷ rest) = o ≡ some c

Linked-cons :
    (disk : Disk) (ctx : Fat32Ctx) (c : ℕ) (next : Option ℕ) (rest : List ℕ)
    → next_cluster disk ctx c ≡ ok next
    → StartsAt next rest
    → Linked disk ctx rest
    → Linked disk ctx (c ∷ rest)
Linked-cons disk ctx c next [] e s l = tt
Linked-cons disk ctx c next (d ∷ rest) e s l = (e ∙ ap ok s, l)

-- What a chain that was followed is.
pub record IsChain (disk : Disk) (ctx : Fat32Ctx) (start : Option ℕ) (left : ℕ) (chain : List ℕ)
    : Type 0 where
  pub starts : StartsAt start chain
  pub linked : Linked disk ctx chain
  pub data_clusters : All (λ c. 2 ≤ c) chain
  pub bounded : length chain ≤ left

bind-inv :
    {A B : Type 0}
    → (r : Result ℕ A) (f : A → Result ℕ B) (b : B) → r >>= f ≡ ok b
    → (a : A) × (r ≡ ok a) × (f a ≡ ok b)
bind-inv (ok a) f b h = (a, refl, h)
bind-inv (err e) f b h = cc

chain_from-IsChain :
    (left : ℕ) (disk : Disk) (ctx : Fat32Ctx) (start : Option ℕ) (chain : List ℕ)
    → chain_from left disk ctx start ≡ ok chain
    → IsChain disk ctx start left chain
unfolding chain_from follow
chain_from-IsChain left disk ctx none chain h =
    let e : [] ≡ chain = cc in
    subst (IsChain disk ctx none left) e
      (record { starts = tt; linked = tt; data_clusters = tt; bounded = omega arith })
chain_from-IsChain zero disk ctx (some c) chain h =
    let e : [] ≡ chain = cc in
    subst (IsChain disk ctx (some c) 0) e
      (record { starts = tt; linked = tt; data_clusters = tt; bounded = omega arith })
chain_from-IsChain (suc left) disk ctx (some c) chain h = elim (Bool-cases (leb 2 c)) [
  | inr l ↦
      let k : ok [] ≡ ok chain = rw l at h in
      let e : [] ≡ chain = cc in
      subst (IsChain disk ctx (some c) (suc left)) e
        (record { starts = tt; linked = tt; data_clusters = tt; bounded = omega arith })
  | inl l ↦
      let k : follow (chain_from left disk ctx) c (next_cluster disk ctx c) ≡ ok chain =
        rw l at h in
      let (next, en, k') = bind-inv (next_cluster disk ctx c) _ chain k in
      let (rest, er, k'') = bind-inv (chain_from left disk ctx next) _ chain k' in
      let e : c ∷ rest ≡ chain = cc in
      let ih = chain_from-IsChain left disk ctx next rest er in
      subst (IsChain disk ctx (some c) (suc left)) e (record {
        starts = refl;
        linked = Linked-cons disk ctx c next rest en ih.starts ih.linked;
        data_clusters = (leb→le 2 c l, ih.data_clusters);
        bounded = omega (arith, ih.bounded);
      })
]

-- A chain that is read starts at the first cluster, follows the table from each cluster to the next,
-- names no cluster below 2, and has at most 1,000,001 clusters, also where the table has a loop.
pub cluster_chain-IsChain :
    (disk : Disk) (ctx : Fat32Ctx) (start : ℕ) (chain : List ℕ)
    → cluster_chain disk ctx start ≡ ok chain
    → IsChain disk ctx (some start) 1_000_001 chain
cluster_chain-IsChain disk ctx start chain h =
    chain_from-IsChain 1_000_001 disk ctx (some start) chain h

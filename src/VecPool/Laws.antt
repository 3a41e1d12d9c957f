-- ===== src/VecPool/Laws.antt =====
-- Loans from the pool, and `resize_all`.
use paperlog.Base.{
  ℕ, zero, suc, ◌*◌, ◌≤◌, ◌<◌, ◌≡◌, refl, List, [], ◌∷◌, ◌++◌, map, length, length-append, arith,
  All, All-append, max, replicate, ◌⊎◌,
}
use paperlog.VecPool.{
  Vector, VecPool, VecPoolGuard, with_capacity, pool_len, with_initial_amount, take_front, take_vec,
  return_vec, drop_guard, reserve, resize_one, resize_all,
}

-- Every vector in the pool is empty.
abbrev pub IsClean {ℓ} : {A : Type ℓ} → VecPool A → Type ℓ
IsClean p = All (λ v. v.items ≡ []) p.pool

replicate-IsClean {ℓ} :
    (A : Type ℓ) (n c : ℕ) → All (λ v. v.items ≡ []) (replicate n (with_capacity {A = A} c))
replicate-IsClean A zero c = tt
replicate-IsClean A (suc n) c = (refl, replicate-IsClean A n c)

pub with_initial_amount-IsClean {ℓ} :
    (A : Type ℓ) (n c : ℕ) → IsClean (with_initial_amount {A = A} n c)
unfolding with_initial_amount
with_initial_amount-IsClean A n c = replicate-IsClean A n c

module _ {ℓ} {A : Type ℓ} where
  take_front-IsClean :
      (vs : List (Vector A)) (p : VecPool A)
      → All (λ v. v.items ≡ []) vs
      → p.pool ≡ vs
      → ((take_front vs p).vec.items ≡ []) × IsClean (take_front vs p).rest
  unfolding take_front
  take_front-IsClean [] p c e = (refl, rw e tt)
  take_front-IsClean (v ∷ vs) p c e = c

  -- A vector that is taken is empty, and the others stay so.
  pub take_vec-IsClean :
      (p : VecPool A) → IsClean p → ((take_vec p).vec.items ≡ []) × IsClean (take_vec p).rest
  unfolding take_vec
  take_vec-IsClean p c = take_front-IsClean p.pool p c refl

  -- So is the pool after a guard is dropped, whatever its vector holds.
  pub drop_guard-IsClean : (g : VecPoolGuard A) → IsClean g.rest → IsClean (drop_guard g)
  unfolding drop_guard return_vec
  drop_guard-IsClean g c = All-append (λ v. v.items ≡ []) g.rest.pool _ c (refl, tt)

  -- One loan: the vector is taken, used until it is `w`, and dropped.
  abbrev pub lend : VecPool A → Vector A → VecPool A
  lend p w = drop_guard (record { vec = w; rest = (take_vec p).rest })

  lend-cases :
      (vs : List (Vector A)) (p : VecPool A) (w : Vector A)
      → p.pool ≡ vs
      → pool_len (return_vec (take_front vs p).rest w) ≡ max 1 (length vs)
  unfolding pool_len return_vec take_front
  lend-cases [] p w e = rw (length-append p.pool, e) (omega arith)
  lend-cases (v ∷ vs) p w e = rw (length-append vs) (omega arith)

  -- A loan, whatever is done with the vector, leaves the pool as long as it was, or with one
  -- vector if it was empty.
  pool_len-lend : (p : VecPool A) (w : Vector A) → pool_len (lend p w) ≡ max 1 (pool_len p)
  unfolding drop_guard take_vec pool_len
  pool_len-lend p w = lend-cases p.pool p w refl

  -- The empty vector at the front goes to the back by a loan that keeps its capacity.
  lend-rotates :
      (p : VecPool A) (v w : Vector A) (vs : List (Vector A))
      → p.pool ≡ v ∷ vs
      → w.capacity ≡ v.capacity
      → v.items ≡ []
      → (lend p w).pool ≡ vs ++ v ∷ []
  unfolding drop_guard return_vec take_vec take_front
  lend-rotates p v w vs e c clean = ground (arith)

  module _ (grow : ℕ → ℕ → ℕ) where
    resize_pool_short :
        (n : ℕ) (vs : List (Vector A))
        → All (λ v. (v.items ≡ []) × (v.capacity < n) × (n ≤ 2 * v.capacity)) vs
        → map (resize_one grow n) vs ≡ vs
    unfolding resize_one reserve
    resize_pool_short n [] a = refl
    resize_pool_short n (v ∷ vs) a = ground (arith, resize_pool_short n vs a.1)

    -- Where every pooled vector is empty and has less than the new capacity but at least half of
    -- it, `resize_all` changes none of them, though the pool takes the new capacity for later
    -- ones.
    resize_all_short :
        (p : VecPool A) (n : ℕ)
        → All (λ v. (v.items ≡ []) × (v.capacity < n) × (n ≤ 2 * v.capacity)) p.pool
        → ((resize_all grow p n).pool ≡ p.pool) × ((resize_all grow p n).inner_capacity ≡ n)
    unfolding resize_all
    resize_all_short p n a = (resize_pool_short n p.pool a, refl)

    resize_pool_reaches :
        (n : ℕ) (vs : List (Vector A))
        → All (λ v. (v.capacity ≡ 0) ⊎ (n ≤ v.capacity)) vs
        → All (λ v. n ≤ v.capacity) (map (resize_one grow n) vs)
    unfolding resize_one reserve
    resize_pool_reaches n [] a = tt
    resize_pool_reaches n (v ∷ vs) a = (ground arith, resize_pool_reaches n vs a.1)

    -- Where every pooled vector has capacity 0 or enough, all have the new capacity after
    -- `resize_all`.
    resize_all-reaches :
        (p : VecPool A) (n : ℕ)
        → All (λ v. (v.capacity ≡ 0) ⊎ (n ≤ v.capacity)) p.pool
        → All (λ v. n ≤ v.capacity) (resize_all grow p n).pool
    unfolding resize_all
    resize_all-reaches p n a = resize_pool_reaches n p.pool a

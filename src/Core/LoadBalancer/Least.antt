-- ===== src/Core/LoadBalancer/Least.antt =====
-- What `find_least_loaded_core` finds.
use cloud_fly_prlatform.Prelude.{
  suc, get_elem?, some, ℕ, ◌≡◌, ◌⊎◌, inl, inr, refl, Bool, true, false, ◌&&◌, [], ◌∷◌, arith,
  Bool-cases, returns,
}
use cloud_fly_prlatform.Prelude.Maps.{Map}
use cloud_fly_prlatform.Core.LoadBalancer.{
  Doubles, CoreMetrics, LoadBalancer, load, least, find_least_loaded_core, no_core,
}

-- `<` on `double` is a strict order, NaN or not.
pub record IsStrictOrder (d : Doubles) : Type 0 where
  pub irrefl : (a : d.Double) → d.lt a a ≡ false
  pub trans : (a b c : d.Double) → d.lt a b ≡ true → d.lt b c ≡ true → d.lt a c ≡ true

module _ (d : Doubles) where
  -- No healthy core of the map has a load under this one.
  abbrev pub NoneBelow : d.Double → Map ℕ (CoreMetrics d) → Type 0
  NoneBelow x [] = Unit {0}
  NoneBelow x ((core_id, c) ∷ cores) =
      ((c.is_healthy && d.lt (load d c) x) ≡ false) × NoneBelow x cores

  -- `r` is a healthy core of the map with a load under `x`, and none has a lesser one.
  abbrev pub LeastBelow : d.Double → Map ℕ (CoreMetrics d) → ℕ → Type 0
  LeastBelow x cores r =
      (c : CoreMetrics d) × ((i : ℕ) × (get_elem? cores i ≡ some (r, c)))
      × (c.is_healthy ≡ true)
      × (d.lt (load d c) x ≡ true)
      × NoneBelow (load d c) cores

  least-LeastBelow :
      (best : ℕ) (x : d.Double) (cores : Map ℕ (CoreMetrics d))
      → IsStrictOrder d
      → ((least d best x cores ≡ best) × NoneBelow x cores)
        ⊎ LeastBelow x cores (least d best x cores)
  unfolding least
  least-LeastBelow best x [] o = inl (refl, tt)
  least-LeastBelow best x ((core_id, c) ∷ cores) o =
      elim (Bool-cases (c.is_healthy && d.lt (load d c) x)) [
        | inl e ↦
            let (healthy, under) = both e in
            elim (least-LeastBelow core_id (load d c) cores o) [
              | inl (same, none_below) ↦ inr (
                c,
                (0, ground (arith, e, same)),
                healthy,
                under,
                (last c (o.irrefl (load d c)), none_below),
              )
              | inr (c', (i, at), h, l, none_below) ↦ inr (
                c',
                (suc i, ground (arith, e, at)),
                h,
                o.trans (load d c') (load d c) x l under,
                (last c (asymmetric c' c l), none_below),
              )
            ]
        | inr e ↦ elim (least-LeastBelow best x cores o) [
          | inl (same, none_below) ↦ inl (ground (arith, e, same), (e, none_below))
          | inr (c', (i, at), h, l, none_below) ↦
              inr (c', (suc i, ground (arith, e, at)), h, l, (under_no_less c' l e, none_below))
        ]
      ]
    where
      both : {a b : Bool} → (a && b) ≡ true → (a ≡ true) × (b ≡ true)
      both e = ground (arith, e)

      last :
          {y : d.Double} (k : CoreMetrics d)
          → d.lt (load d k) y ≡ false
          → (k.is_healthy && d.lt (load d k) y) ≡ false
      last k e = ground (arith, e)

      asymmetric :
          (a b : CoreMetrics d)
          → d.lt (load d a) (load d b) ≡ true
          → d.lt (load d b) (load d a) ≡ false
      asymmetric a b l = elim (Bool-cases (d.lt (load d b) (load d a))) [
        | inl q ↦
            absurd
              (ground (arith, o.trans (load d a) (load d b) (load d a) l q, o.irrefl (load d a)))
        | inr q ↦ q
      ]

      under_no_less :
          (a : CoreMetrics d)
          → d.lt (load d a) x ≡ true
          → (c.is_healthy && d.lt (load d c) x) ≡ false
          → (c.is_healthy && d.lt (load d c) (load d a)) ≡ false
      under_no_less a l e = elim (Bool-cases (d.lt (load d c) (load d a))) [
        | inl q ↦ ground (arith, o.trans (load d c) (load d a) x q l, e)
        | inr q ↦ last c q
      ]

-- With `<` on `double` a strict order, `find_least_loaded_core` always answers, changes nothing, and finds
-- a healthy core with a load under the greatest double than which no healthy core has a lesser load;
-- when no healthy core has a load under it, the answer is the number that stands for no core.
pub find_least_loaded_core-LeastBelow :
    (d : Doubles) (s : LoadBalancer d)
    → IsStrictOrder d
    → (r : ℕ) × (find_least_loaded_core d [] s ≡ returns (r, s))
      × (((r ≡ no_core) × NoneBelow d d.greatest s.core_metrics)
          ⊎ LeastBelow d d.greatest s.core_metrics r)
unfolding find_least_loaded_core
find_least_loaded_core-LeastBelow d s o = (
  least d no_core d.greatest s.core_metrics,
  refl,
  least-LeastBelow d no_core d.greatest s.core_metrics o,
)

-- ===== src/Compute/Vectors/Tests.antt =====
-- Runs of the vector kernels of src/core/drivers/compute_ops.c, on natural numbers.
use cloud_fly_prlatform.Prelude.{
  ℕ, ◌+◌, ◌-◌, ◌*◌, ◌/◌, ◌≡◌, refl, arith, List, replicate, ltb, returns, stops, fault,
}
use cloud_fly_prlatform.Prelude.Slices.{overwrite}
use cloud_fly_prlatform.Compute.Lanes.{Written, between, lanes, load, store}
use cloud_fly_prlatform.Compute.Vectors.{
  avx2, scalar, width, Floats, elementwise, vector_add, vector_sub, vector_mul, vector_div,
  vector_dot, vector_normalize,
}
use cloud_fly_prlatform.Compute.Vectors.Strips.{
  rounded_up, common, elementwise-Written, elementwise-fault, vectors-scalar,
}

abbrev numbers : Floats
numbers = record {
  Float = ℕ;
  add = ◌+◌;
  sub = ◌-◌;
  mul = ◌*◌;
  div = ◌/◌;
  zero_value = 0;
  one_value = 1;
  sqrtf = λ x. x;
  positive = ltb 0;
}

abbrev ones : List ℕ
ones = replicate 8 1

abbrev blank : List ℕ
blank = replicate 8 0

-- Three elements asked for, eight written.
elementwise_overrun : elementwise ◌+◌ avx2 ones ones blank 3 ≡ returns (replicate 8 2)
unfolding elementwise lanes load store overwrite
elementwise_overrun = refl

vector_dot_runs : vector_dot numbers avx2 ones ones 8 ≡ returns 8
unfolding vector_dot load
vector_dot_runs = refl

vector_normalize_runs : vector_normalize numbers scalar ones 8 ≡ returns (replicate 8 0)
unfolding vector_normalize load store overwrite
vector_normalize_runs = refl

elementwise-Written_example :
    (r' : List ℕ) × (elementwise ◌+◌ avx2 ones ones blank 3 ≡ returns r')
    × Written ◌+◌ ones ones (between ◌+◌ 0 (rounded_up (width avx2) 3)) blank r'
unfolding width rounded_up common
elementwise-Written_example = elementwise-Written ◌+◌ avx2 ones ones blank 3 (omega arith)

elementwise-fault_runs :
    elementwise ◌+◌ avx2 (replicate 3 1) (replicate 3 1) (replicate 3 0) 3 ≡ stops fault
unfolding width rounded_up common
elementwise-fault_runs =
    elementwise-fault ◌+◌ avx2 (replicate 3 1) (replicate 3 1) (replicate 3 0) 3 (omega arith)

vectors-scalar_runs :
    (vector_add numbers avx2 ones ones blank 8 ≡ vector_add numbers scalar ones ones blank 8)
    × (vector_sub numbers avx2 ones ones blank 8 ≡ vector_sub numbers scalar ones ones blank 8)
    × (vector_mul numbers avx2 ones ones blank 8 ≡ vector_mul numbers scalar ones ones blank 8)
    × (vector_div numbers avx2 ones ones blank 8 ≡ vector_div numbers scalar ones ones blank 8)
unfolding width
vectors-scalar_runs =
    vectors-scalar numbers avx2 ones ones blank 8 (omega arith) (omega arith) (omega arith)
      (omega arith)

-- ===== src/Fcyc/Tests.antt =====
-- Runs of the K-best scheme, and its theorems at them.
use csapp_code.Prelude.{
  ℕ, ◌+◌, ◌*◌, ◌%◌, ◌≡◌, refl, arith, Bool, leb, ◌==◌, if◌then◌else◌, [], ◌∷◌, some,
}
use csapp_code.Fcyc.{
  defaults, set_fcyc_k, set_fcyc_cache_size, Sampler, init_sampler, sift, add_sample, has_converged,
  sample_loop, fcyc,
}
use csapp_code.Fcyc.Laws.{Holds, init_sampler-Holds, add_sample-Holds}
use csapp_code.Fcyc.Run.{Measured, fcyc-Measured}

-- Within one part in a hundred.
abbrev close : ℕ → ℕ → Bool
close a b = leb (100 * b) (101 * a)

-- A slow first run, then a few cycles of noise.
abbrev noisy : ℕ → ℕ
noisy i = if i == 0 then 9000 else 1000 + i * 7 % 4

run_of_five : fcyc close noisy 20 defaults ≡ some (1001, 4)
unfolding fcyc sample_loop has_converged add_sample sift
run_of_five = refl

-- Times that never come close take all the samples.
run_to_the_end : fcyc close (λ i. 1000 + 500 * i) 20 (set_fcyc_k 3 defaults) ≡ some (1000, 20)
unfolding fcyc sample_loop has_converged add_sample sift
run_to_the_end = refl

cache_size : (set_fcyc_cache_size 4096 defaults).cache_bytes ≡ 4096
cache_size = refl

three_values :
    (add_sample 3 (record { values = 5 ∷ 8 ∷ 0 ∷ []; samplecount = 2 }) 6)
    ≡ some (record { values = 5 ∷ 6 ∷ 8 ∷ []; samplecount = 3 })
unfolding add_sample sift
three_values = refl

add_sample-Holds_example :
    (s' : Sampler) × (add_sample 2 (init_sampler 2) 7 ≡ some s') × Holds 2 (7 ∷ []) s'
add_sample-Holds_example =
    add_sample-Holds 2 [] (init_sampler 2) 7 (init_sampler-Holds 2) (omega arith)

fcyc-Measured_example :
    (m : ℕ) × (result : ℕ) × (fcyc close noisy 20 defaults ≡ some (result, m))
    × Measured close noisy defaults m result
fcyc-Measured_example =
    fcyc-Measured close noisy defaults 20 (omega arith) (omega arith) (omega arith)

-- ===== src/Fcyc.antt =====
-- labs/malloclab-handout/fcyc.c: the K-best scheme, which times a function again and again until its
-- K smallest times are close. A time is a number of cycles; clock.c returns whole ones. `close a b`
-- stands for the test `(1 + epsilon) * a >= b` on doubles, and `measure i` for the time of the i-th
-- run, with or without compensation. `none` is a read or a write outside `values`.
pub mod Sorted
pub mod Best
pub mod Laws
pub mod Run
mod Tests
use csapp_code.Prelude.{
  ℕ, zero, suc, ◌+◌, ◌-◌, ◌*◌, ◌^◌, Bool, true, false, not, ◌&&◌, Option, none, some, List, [], ◌∷◌,
  ltb, leb, ◌==◌, if◌then◌else◌, get_elem?, set, replicate,
}

-- The variables that the `set_fcyc` functions change; the tolerance is in `close`.
pub record Settings : Type 0 where
  pub kbest : ℕ
  pub maxsamples : ℕ
  pub compensate : ℕ
  pub clear_cache : ℕ
  pub cache_bytes : ℕ
  pub cache_block : ℕ
  pub has_cache_buf : Bool

abbrev pub defaults : Settings
defaults = record {
  kbest = 3;
  maxsamples = 20;
  compensate = 0;
  clear_cache = 0;
  cache_bytes = 2 ^ 19;
  cache_block = 32;
  has_cache_buf = false;
}

abbrev pub set_fcyc_clear_cache : ℕ → Settings → Settings
set_fcyc_clear_cache clear s = record s { clear_cache = clear }

-- A new size frees the buffer.
abbrev pub set_fcyc_cache_size : ℕ → Settings → Settings
set_fcyc_cache_size bytes s =
    if not (bytes == s.cache_bytes)
    then record s { cache_bytes = bytes; has_cache_buf = false }
    else s

abbrev pub set_fcyc_cache_block : ℕ → Settings → Settings
set_fcyc_cache_block bytes s = record s { cache_block = bytes }

abbrev pub set_fcyc_compensate : ℕ → Settings → Settings
set_fcyc_compensate arg s = record s { compensate = arg }

abbrev pub set_fcyc_k : ℕ → Settings → Settings
set_fcyc_k k s = record s { kbest = k }

abbrev pub set_fcyc_maxsamples : ℕ → Settings → Settings
set_fcyc_maxsamples arg s = record s { maxsamples = arg }

pub record Sampler : Type 0 where
  pub values : List ℕ
  pub samplecount : ℕ

abbrev pub init_sampler : ℕ → Sampler
init_sampler kbest = record { values = replicate kbest 0; samplecount = 0 }

-- The insertion sort, from index `pos` down.
pub sift : ℕ → List ℕ → List ℕ
sift zero values = values
sift (suc pos) values = elim (get_elem? values pos) [
  | none ↦ values
  | some before ↦ elim (get_elem? values (suc pos)) [
    | none ↦ values
    | some here ↦
        if ltb here before then sift pos (set (set values pos here) (suc pos) before) else values
  ]
]

pub add_sample : ℕ → Sampler → ℕ → Option Sampler
add_sample kbest s val =
    if ltb s.samplecount kbest
    then some (record {
      values = sift s.samplecount (set s.values s.samplecount val);
      samplecount = s.samplecount + 1;
    })
    else (elim (get_elem? s.values (kbest - 1)) [
      | none ↦ none
      | some last ↦
          if ltb val last
          then some (record {
            values = sift (kbest - 1) (set s.values (kbest - 1) val);
            samplecount = s.samplecount + 1;
          })
          else some (record s { samplecount = s.samplecount + 1 })
    ])

module _ (close : ℕ → ℕ → Bool) where
  pub has_converged : ℕ → Sampler → Bool
  has_converged kbest s = leb kbest s.samplecount && (elim (get_elem? s.values 0) [
    | none ↦ false
    | some first ↦ elim (get_elem? s.values (kbest - 1)) [
      | none ↦ false
      | some last ↦ close first last
    ]
  ])

  module _ (measure : ℕ → ℕ) where
    -- The `do` loop, for at most `fuel` more rounds.
    pub sample_loop : ℕ → Settings → Sampler → Option Sampler
    sample_loop zero c s = none
    sample_loop (suc fuel) c s = elim (add_sample c.kbest s (measure s.samplecount)) [
      | none ↦ none
      | some s' ↦
          let rest = sample_loop fuel c s' in
          if not (has_converged c.kbest s') && ltb s'.samplecount c.maxsamples
          then rest
          else some s'
    ]

    -- The result, and the number of runs.
    pub fcyc : ℕ → Settings → Option (ℕ × ℕ)
    fcyc fuel c = elim (sample_loop fuel c (init_sampler c.kbest)) [
      | none ↦ none
      | some s ↦ elim (get_elem? s.values 0) [
        | none ↦ none
        | some result ↦ some (result, s.samplecount)
      ]
    ]

-- ===== src/Proxy/Store.antt =====
-- The cache of proxy.c: `init_cache`, `reader` and `writer`.
use mathlib.Core.Path.{subst}
use csapp_code.Prelude.{
  ℕ, zero, suc, ◌+◌, ◌<◌, ◌≤◌, ◌≡◌, ◌≢◌, refl, sym, ◌∙◌, arith, false, none, some, List, [], ◌∷◌,
  length, length-set, get_elem?, get_elem?-set_ne, set, replicate, if◌then◌else◌, Bool-cases, inl,
  inr, same_text, same_text_self, same_text_sound,
}
use csapp_code.Proxy.{
  max_line, max_object_size, done, fault, CacheLine, Cache, init_cache, find_object, reader, writer,
}

find_object-set :
    (uri buf : List ℕ) (cs : List CacheLine) (i : ℕ)
    → find_object uri cs ≡ none
    → i < length cs
    → find_object uri (set cs i (record { name = uri; object = buf })) ≡ some buf
unfolding find_object
find_object-set uri buf [] i e h = absurd (omega arith)
find_object-set uri buf (c ∷ cs) zero e h = ground (arith, same_text_self uri)
find_object-set uri buf (c ∷ cs) (suc i) e h = ground (arith, e, find_object-set uri buf cs i)

find_object-set_other :
    (o : List ℕ) (cs : List CacheLine) (i : ℕ) (old new : CacheLine)
    → get_elem? cs i ≡ some old
    → same_text old.name o ≡ false
    → same_text new.name o ≡ false
    → find_object o (set cs i new) ≡ find_object o cs
unfolding find_object
find_object-set_other o [] i old new at x n = refl
find_object-set_other o (c ∷ cs) zero old new at x n = ground (arith, at, x, n)
find_object-set_other o (c ∷ cs) (suc i) old new at x n =
    ground (arith, find_object-set_other o cs i old new at x n)

get_elem?-replicate : (n : ℕ) (x : CacheLine) (i : ℕ) → i < n → get_elem? (replicate n x) i ≡ some x
get_elem?-replicate zero x i h = absurd (omega arith)
get_elem?-replicate (suc n) x zero h = refl
get_elem?-replicate (suc n) x (suc i) h = get_elem?-replicate n x i (omega arith)

same_text-ne : (s o : List ℕ) → o ≢ s → same_text s o ≡ false
same_text-ne s o ne = elim (Bool-cases (same_text s o)) [
  | inl same ↦ absurd (ne (sym (same_text_sound s o same)))
  | inr other ↦ other
]

-- There are ten entries, and those from `used_cnt` on still hold `junk` for a name.
pub record IsCache (junk : List ℕ) (c : Cache) : Type 0 where
  pub ten : length c.objects ≡ 10
  pub bound : c.used_cnt ≤ 10
  pub unused :
      (i : ℕ)
      → c.used_cnt ≤ i
      → i < 10
      → (e : CacheLine) × (get_elem? c.objects i ≡ some e) × (e.name ≡ junk)

module _ (junk : List ℕ) where
  pub init_cache-IsCache : IsCache junk (init_cache junk)
  unfolding init_cache
  init_cache-IsCache = record {
    ten = refl;
    bound = omega arith;
    unused = λ i le lt. (
      record { name = junk; object = [] },
      get_elem?-replicate 10 (record { name = junk; object = [] }) i lt,
      refl,
    );
  }

  module _ (uri buf : List ℕ) (c : Cache) (ok : IsCache junk c) where
    -- While there is room, `writer` succeeds on a name and an object that fit their arrays, and of the object that it stores and the names other
    -- than `junk` the cache is a map: the new name gives the new object, any other what it gave
    -- before.
    pub reader-writer :
        c.used_cnt < 10
        → length uri < max_line
        → length buf < max_object_size
        → reader c uri ≡ none
        → (c' : Cache) × (writer uri buf c ≡ done c')
          × IsCache junk c'
          × (c'.used_cnt ≡ c.used_cnt + 1)
          × ((o : List ℕ)
              → o ≢ junk
              → reader c' o ≡ (if same_text uri o then some buf else reader c o))
    unfolding reader writer
    reader-writer room short small new =
        let (e, at, named) = ok.unused c.used_cnt (omega arith) room in
        (
          record {
            used_cnt = c.used_cnt + 1;
            objects = set c.objects c.used_cnt (record { name = uri; object = buf });
          },
          ground (arith, room, short, small),
          record {
            ten = length-set c.objects c.used_cnt (record { name = uri; object = buf }) ∙ ok.ten;
            bound = omega arith;
            unused = λ i le lt.
                let (e', at', named') = ok.unused i (omega arith) lt in
                (
                  e',
                  get_elem?-set_ne c.objects c.used_cnt i (record { name = uri; object = buf })
                        (omega arith)
                      ∙ at',
                  named',
                );
          },
          refl,
          λ o other. elim (Bool-cases (same_text uri o)) [
            | inl same ↦
                let found =
                  find_object-set uri buf c.objects c.used_cnt new (omega (arith, ok.ten)) in
                ground (
                  arith,
                  same,
                  subst
                      (λ t.
                        find_object t
                          (set c.objects c.used_cnt (record { name = uri; object = buf }))
                        ≡ some buf)
                      (same_text_sound uri o same) found,
                )
            | inr differs ↦ ground (
              arith,
              differs,
              find_object-set_other o c.objects c.used_cnt e (record { name = uri; object = buf })
                  at (same_text-ne e.name o (λ q. other (q ∙ named))) differs,
            )
          ],
        )

-- A name that is stored is found at once.
pub reader-writer_same :
    (junk uri buf : List ℕ) (c : Cache)
    → IsCache junk c
    → c.used_cnt < 10
    → length uri < max_line
    → length buf < max_object_size
    → reader c uri ≡ none
    → uri ≢ junk
    → (c' : Cache) × (writer uri buf c ≡ done c') × IsCache junk c' × (reader c' uri ≡ some buf)
reader-writer_same junk uri buf c ok room short small new other =
    let (c', wrote, ok', more, law) = reader-writer junk uri buf c ok room short small new in
    (c', wrote, ok', ground (arith, law uri other, same_text_self uri))

-- The eleventh object is written behind the ten entries.
pub writer_full : (uri buf : List ℕ) (c : Cache) → c.used_cnt ≡ 10 → writer uri buf c ≡ fault
unfolding writer
writer_full uri buf c e = ground (arith, e)

-- ===== src/Cache/Laws.antt =====
-- Laws of the cache, in the form that its clients use.
use dms_api.Prelude.{
  ℕ, ◌+◌, ◌≡◌, refl, ap, suc, String, List, [], ◌∷◌, map, arith, length, str_eq, eq_iff,
  if◌then◌else◌,
}
use dms_api.Prelude.Dict
use dms_api.Prelude.Dict.{Dict, get-put, get-delete}
use dms_api.Cache.{Cache, remove, get, get_jobs, get_keys, store}

-- How often a key is listed.
pub count_key : String → List String → ℕ
count_key k [] = 0
count_key k (j ∷ ks) = (if str_eq j k then 1 else 0) + count_key k ks

module _ {ℓ} {T : Type ℓ} where
  -- A read after a write sees the written value at its key and the old one elsewhere.
  pub get-store :
      (z : T) (k j : String) (v : T) (c : Cache T)
      → get z j (store k v c) ≡ (if str_eq k j then v else get z j c)
  unfolding get store
  get-store z k j v c = ground (arith, get-put k j v c.cache)

  -- A read after a removal sees the zero value at its key and the old value elsewhere.
  pub get-remove :
      (z : T) (k j : String) (c : Cache T)
      → get z j (remove k c) ≡ (if str_eq k j then z else get z j c)
  unfolding get remove
  get-remove z k j c = ground (arith, get-delete k j c.cache)

  count-delete :
      (k j : String) (m : Dict T)
      → count_key j (map (λ e. e.0) (Dict.delete k m))
        ≡ (if str_eq k j then 0 else count_key j (map (λ e. e.0) m))
  unfolding count_key Dict.delete
  count-delete k j [] = ground arith
  count-delete k j ((i, v) ∷ m) =
      ground (arith, count-delete k j m, eq_iff i k, eq_iff i j, eq_iff k j)

  -- After a store the key is listed exactly once, and every other key as often as before.
  pub count-store :
      (k j : String) (v : T) (c : Cache T)
      → count_key j (get_keys (store k v c)) ≡ (if str_eq k j then 1 else count_key j (get_keys c))
  unfolding get_keys store Dict.put count_key
  count-store k j v c = ground (arith, count-delete k j c.cache)

  -- After a removal the key is not listed, and every other key as often as before.
  pub count-remove :
      (k j : String) (c : Cache T)
      → count_key j (get_keys (remove k c)) ≡ (if str_eq k j then 0 else count_key j (get_keys c))
  unfolding get_keys remove
  count-remove k j c = count-delete k j c.cache

  -- The jobs are as many as the keys.
  pub length-get_jobs : (c : Cache T) → length (get_jobs c) ≡ length (get_keys c)
  unfolding get_jobs get_keys
  length-get_jobs c = lengths c.cache
    where
      lengths : (m : Dict T) → length (map (λ e. e.1) m) ≡ length (map (λ e. e.0) m)
      lengths [] = refl
      lengths (e ∷ m) = ap suc (lengths m)

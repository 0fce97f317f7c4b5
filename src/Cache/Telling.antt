-- ===== src/Cache/Telling.antt =====
-- cache/*.go: the calls of metrics/handlerFunc.go that the operations of the cache make.
use bduts.Prelude.{◌≡◌, refl, ap, ◌∙◌, List, [], ◌∷◌, Option, none, some}
use bduts.Prelude.Int.{◌+ℤ◌}
use bduts.Prelude.Go.{Go, ret, panic, ◌>>=◌}
use bduts.Metrics.{unmade, Metrics, update_cache_size, update_cache_pages_count}
use bduts.Cache.Store.{CachingProperties, Told, size_set, pages_moved}

module _ {F : Type 0} where
  unfoldable pub told : Told → Option (Metrics F) → Go (Option (Metrics F))
  unfolding update_cache_size update_cache_pages_count
  told (size_set size) g = update_cache_size size g
  told (pages_moved delta) g = update_cache_pages_count delta g

  -- The last call stands first.
  unfoldable pub tell_all : List Told → Option (Metrics F) → Go (Option (Metrics F))
  unfolding told
  tell_all [] g = ret g
  tell_all (t ∷ earlier) g = do g' ← tell_all earlier g; told t g'

  -- What metrics that are there say after the calls
  abbrev pub after_told : Told → Metrics F → Metrics F
  after_told (size_set size) m = record m { cache_size = size }
  after_told (pages_moved delta) m = record m { cache_pages_count = m.cache_pages_count +ℤ delta }

  abbrev pub after_all : List Told → Metrics F → Metrics F
  after_all [] m = m
  after_all (t ∷ earlier) m = after_told t (after_all earlier m)

  told-some : (t : Told) (m : Metrics F) → told t (some m) ≡ ret (some (after_told t m))
  unfolding told update_cache_size update_cache_pages_count
  told-some (size_set size) m = refl
  told-some (pages_moved delta) m = refl

  pub tell_all-some :
      (ts : List Told) (m : Metrics F) → tell_all ts (some m) ≡ ret (some (after_all ts m))
  unfolding tell_all
  tell_all-some [] m = refl
  tell_all-some (t ∷ earlier) m =
      ap (λ r. r >>= told t) (tell_all-some earlier m) ∙ told-some t (after_all earlier m)

  -- While GlobalMetrics is nil, the first call panics.
  told-none : (t : Told) → told t (unmade {F = F}) ≡ panic
  unfolding told update_cache_size update_cache_pages_count
  told-none (size_set size) = refl
  told-none (pages_moved delta) = refl

  pub tell_all-none :
      (t : Told) (earlier : List Told) → tell_all (t ∷ earlier) (unmade {F = F}) ≡ panic
  unfolding tell_all
  tell_all-none t [] = told-none t
  tell_all-none t (t' ∷ earlier) = ap (λ r. r >>= told t) (tell_all-none t' earlier)

module _ {F Db : Type 0} where
  -- An operation whose calls of the metrics are made
  unfoldable pub reported :
      Go (CachingProperties Db)
      → Option (Metrics F)
      → Go (CachingProperties Db × Option (Metrics F))
  unfolding tell_all
  reported r g = do c ← r; g' ← tell_all c.untold g; ret (record c { untold = [] }, g')

  pub reported-some :
      (c : CachingProperties Db) (m : Metrics F)
      → reported (ret c) (some m) ≡ ret (record c { untold = [] }, some (after_all c.untold m))
  unfolding reported
  reported-some c m =
      let next : Option (Metrics F) → Go (CachingProperties Db × Option (Metrics F)) =
        λ g. ret (record c { untold = [] }, g) in
      ap (λ r. r >>= next) (tell_all-some c.untold m)

  -- What becomes of a call's result while GlobalMetrics is nil
  abbrev pub unheard :
      CachingProperties Db → List Told → Go (CachingProperties Db × Option (Metrics F))
  unheard c [] = ret (record c { untold = [] }, none)
  unheard c (t ∷ earlier) = panic

  pub reported-none :
      (c : CachingProperties Db) → reported (ret c) (unmade {F = F}) ≡ unheard c c.untold
  unfolding reported tell_all
  reported-none c = by_calls c.untold
    where
      next : Option (Metrics F) → Go (CachingProperties Db × Option (Metrics F))
      next g = ret (record c { untold = [] }, g)

      by_calls : (ts : List Told) → (tell_all ts none >>= next) ≡ unheard c ts
      by_calls [] = refl
      by_calls (t ∷ earlier) = ap (λ r. r >>= next) (tell_all-none t earlier)

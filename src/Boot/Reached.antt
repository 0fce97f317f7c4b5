-- ===== src/Boot/Reached.antt =====
-- main.go, main: the steps of a start in which nothing fails.
use bduts.Prelude.{
  ◌≡◌, refl, ap, ◌∙◌, inl, inr, Bool, true, false, String, List, [], ◌∷◌, Option, Option-cases,
  some, arith, All, if◌then◌else◌,
}
use bduts.Prelude.Int.{ℤ, pos, int64, ◌+ℤ◌}
use bduts.Prelude.Go.{ret}
use bduts.Cache.Disk.{Bytes, Disk, directory, node, place}
use bduts.Cache.Directives.{PageMetadata}
use bduts.Cache.Bolt.{Bolt}
use bduts.Cache.Store.{Codec, CachingProperties}
use bduts.Cache.Whole.{read_metadata, check_disk, total_size, calculate_size}
use bduts.Backend.{ServerConfig}
use bduts.Lb.Starting.{FileConfig, lb_config}
use bduts.Boot.{
  Failure, files_directory_denied, pages_unopened, cache_directory_denied, Ended, done, unpanicked,
  Site, Machine, Parsers, Reading, Boot, ◌>>=◌, ◌>>◌, lift, gets, unless_fatal,
}
use bduts.Boot.Readers.{load_balancer_configure, servers_configure}
use bduts.Boot.Opening.{
  CacheCleaner, new_ticker, new_cache_cleaner, new_caching_properties, content_or,
  make_cache_directory, make_pages_directory, cache_cleaner_configure, open_database,
}
use bduts.Mail.{Letter}
use bduts.Auth.{Trust}
use bduts.Boot.Ticking.{Ticks, new_ticker-Ticks}
use bduts.Boot.Sequence.{prepare_cache}

-- The file is opened, read, decoded and closed.
pub record Reads {A : Type 0} (decode : String → Option A) (r : Reading) (a : A) : Type 0 where
  pub opens : r.opens ≡ true
  pub text : String
  pub content : r.content ≡ some text
  pub decodes : decode text ≡ some a
  pub closes : r.closes ≡ true

module _ (m : Machine) (parsers : Parsers) where
  pub load_balancer_configure-done :
      (file : FileConfig)
      → Reads parsers.config (m.reading "./resources/config.json") file
      → load_balancer_configure m parsers ≡ done file
  unfolding load_balancer_configure
  load_balancer_configure-done file r =
      let o = r.opens in let c = r.content in let d = r.decodes in let e = r.closes in ground arith

  pub servers_configure-done :
      (servers : List ServerConfig)
      → Reads parsers.servers (m.reading "./resources/servers.json") servers
      → servers_configure m parsers ≡ done servers
  unfolding servers_configure
  servers_configure-done servers r =
      let o = r.opens in let c = r.content in let d = r.decodes in let e = r.closes in ground arith

-- A step that ends well, with its result and what it leaves
pub record Reaches {ℓ} {S : Type 0} {A : Type ℓ} (s : S) (m : Boot S A) (a : A) (t : S)
    : Type ℓ where
  pub reached : m s ≡ (done a, t)

module _ {S : Type 0} where
  pub Reaches-bind {ℓ κ} :
      {A : Type ℓ} {B : Type κ} (m : Boot S A) (f : A → Boot S B) (s t u : S) (a : A) (b : B)
      → Reaches s m a t
      → Reaches t (f a) b u
      → Reaches s (m >>= f) b u
  Reaches-bind m f s t u a b h k = record {
    reached = ap (λ r. ◌>>=◌ (λ (_ : S). r) f s) h.reached ∙ k.reached;
  }

  pub Reaches-then {κ} :
      {B : Type κ} (m : Boot S (Unit {0})) (k : Boot S B) (s t u : S) (b : B)
      → Reaches s m tt t
      → Reaches t k b u
      → Reaches s (m >> k) b u
  Reaches-then m k s t u b = Reaches-bind m (λ _. k) s t u tt b

  pub lift-Reaches {ℓ} :
      {A : Type ℓ} (s : S) (r : Ended A) (a : A) → r ≡ done a → Reaches s (lift r) a s
  lift-Reaches s r a e = record { reached = ap (λ x. (x, s)) e }

  pub gets-Reaches {ℓ} : {A : Type ℓ} (s : S) (f : S → A) → Reaches s (gets f) (f s) s
  gets-Reaches s f = record { reached = refl }

module _ {Db : Type 0} (bolt : Bolt Db) (codec : Codec) where
  -- Every bucket has metadata that unmarshal.
  abbrev pub HasMetadata : Db → List Bytes → Type 0
  HasMetadata db =
      All (λ name. (meta : PageMetadata) × (read_metadata bolt codec name db ≡ inr meta))

  total_size-counts :
      (names : List Bytes) (size : ℤ) (db : Db) (d : Disk)
      → HasMetadata db names
      → (n : ℤ) × (total_size bolt codec names size db d ≡ inr n)
  unfolding total_size
  total_size-counts [] size db d has = (size, refl)
  total_size-counts (name ∷ names) size db d ((meta, e), has) =
      let (n, counts) =
        total_size-counts names (if check_disk name d then int64 (size +ℤ meta.size) else size) db d
          has in
      (n, rw (total_size, e) counts)

  pub calculate_size-counts :
      (c : CachingProperties Db)
      → HasMetadata c.db (bolt.names c.db)
      → (n : ℤ) × (calculate_size bolt codec c ≡ ret (record c { size = n }))
  unfolding calculate_size
  calculate_size-counts c has =
      let (n, counts) = total_size-counts (bolt.names c.db) (pos 0) c.db c.disk has in
      (n, rw (calculate_size, counts) refl)

module _ {Db Udb : Type 0} (m : Machine) where
  abbrev pub with_directory : Site Db Udb → Site Db Udb
  with_directory s = record s { cache_directory = true }

  make_cache_directory-Reaches :
      (e : Failure) (s : Site Db Udb)
      → m.denies "./cache-data" ≡ false
      → Reaches s (make_cache_directory m e) tt (with_directory s)
  unfolding make_cache_directory
  make_cache_directory-Reaches e s allowed = record { reached = ground arith }

  open_database-Reaches :
      (blank : Db) (s : Site Db Udb)
      → m.opens "./cache-data/database.db" ≡ true
      → let db = content_or blank s.cache_db in
        Reaches s (open_database m blank) db (record s { cache_db = some db })
  unfolding open_database
  open_database-Reaches blank s opens = record { reached = ground arith }

  make_pages_directory-Reaches :
      (s : Site Db Udb)
      → m.denies "./cache-data/db" ≡ false
      → (d : Disk) × Reaches s (make_pages_directory m) tt (record s { disk = d })
  unfolding make_pages_directory
  make_pages_directory-Reaches s allowed = elim (Option-cases (node [] s.disk)) [
    | inr (entry, there) ↦ (s.disk, record { reached = rw (make_pages_directory, there) refl })
    | inl missing ↦ (
      place [] directory s.disk,
      record { reached = rw (make_pages_directory, missing, allowed) refl },
    )
  ]

  cache_cleaner_configure-Reaches :
      (frequency size : ℤ) (s : Site Db Udb)
      → m.denies "./cache-data" ≡ false
      → m.denies "./cache-data/db" ≡ false
      → m.opens "./cache-data/db" ≡ true
      → (d : Disk) × Reaches s
          (cache_cleaner_configure m frequency size)
          (new_cache_cleaner size frequency)
          (record s { cache_directory = true; disk = d })
  unfolding cache_cleaner_configure
  cache_cleaner_configure-Reaches frequency size s made allowed opens =
      let s₁ = with_directory s in
      let (d, pages) = make_pages_directory-Reaches s₁ allowed in
      let s₂ : Site Db Udb = record s₁ { disk = d } in
      let cleaner = new_cache_cleaner size frequency in
      (
        d,
        Reaches-then _ _ s s₁ s₂ cleaner
            (make_cache_directory-Reaches files_directory_denied s made)
            (Reaches-then _ _ s₁ s₂ s₂ cleaner pages (
              Reaches-then _ _ s₂ s₂ s₂ cleaner
                (lift-Reaches s₂ (unless_fatal pages_unopened (m.opens "./cache-data/db")) tt
                  (ap (unless_fatal pages_unopened) opens))
                (lift-Reaches s₂ (done cleaner) cleaner refl))),
      )

module _ {Db Udb : Type 0} (bolt : Bolt Db) (codec : Codec) (users : Bolt Udb) (trust : Trust)
    (deliver : Letter → Bool) (blank : Db) (no_users : Udb) (parsers : Parsers) (m : Machine) where
  -- The cache is ready: its database is the one of the file, or a new one.
  pub prepare_cache-Reaches :
      (file : FileConfig) (s : Site Db Udb)
      → Ticks file.observe_frequency
      → m.denies "./cache-data" ≡ false
      → m.denies "./cache-data/db" ≡ false
      → m.opens "./cache-data/db" ≡ true
      → m.opens "./cache-data/database.db" ≡ true
      → HasMetadata bolt codec
          (content_or blank s.cache_db)
          (bolt.names (content_or blank s.cache_db))
      → (c : CachingProperties Db) × (d : Disk) × (c.db ≡ content_or blank s.cache_db)
        × Reaches s
            (prepare_cache bolt codec users trust deliver blank no_users parsers m (lb_config file))
            c
            (record s {
              cache_directory = true;
              disk = d;
              cache_db = some (content_or blank s.cache_db);
            })
  unfolding prepare_cache new_caching_properties
  prepare_cache-Reaches file s ticks made allowed opens_pages opens_db has =
      let config = lb_config file in
      let counted = λ (x : Db) (cl : CacheCleaner) (dk : Disk).
        lift {S = Site Db Udb}
          (unpanicked (calculate_size bolt codec (new_caching_properties x cl dk))) in
      let cleaned_for =
        λ (x : Db) (cl : CacheCleaner). gets (λ (t : Site Db Udb). t.disk) >>= counted x cl in
      let opened = λ (x : Db).
        lift (unpanicked (new_ticker config.observe_frequency))
        >> (cache_cleaner_configure m config.observe_frequency config.max_cache_size
            >>= cleaned_for x) in
      let db = content_or blank s.cache_db in
      let s₁ = with_directory m s in
      let s₂ : Site Db Udb = record s₁ { cache_db = some db } in
      let (d, cleaned) =
        cache_cleaner_configure-Reaches m config.observe_frequency config.max_cache_size s₂ made
          allowed opens_pages in
      let s₃ : Site Db Udb = record s₂ { disk = d } in
      let cleaner = new_cache_cleaner config.max_cache_size config.observe_frequency in
      let c₀ = new_caching_properties db cleaner d in
      let (n, counts) = calculate_size-counts bolt codec c₀ has in
      let c : CachingProperties Db = record c₀ { size = n } in
      (
        c,
        d,
        refl,
        Reaches-then _ _ s s₁ s₃ c (make_cache_directory-Reaches m cache_directory_denied s made) (
            Reaches-bind (open_database m blank) opened s₁ s₂ s₃ db c
              (open_database-Reaches m blank s₁ opens_db)
              (Reaches-then _ _ s₂ s₂ s₃ c
                (lift-Reaches s₂ (unpanicked (new_ticker config.observe_frequency)) tt
                  (ap unpanicked (new_ticker-Ticks file ticks)))
                (Reaches-bind
                  (cache_cleaner_configure m config.observe_frequency config.max_cache_size)
                  (cleaned_for db) s₂ s₃ s₃ cleaner c cleaned
                  (Reaches-bind (gets (λ t. t.disk)) (counted db cleaner) s₃ s₃ s₃ d c
                    (gets-Reaches s₃ (λ t. t.disk))
                    (lift-Reaches s₃ (unpanicked (calculate_size bolt codec c₀)) c
                      (ap unpanicked counts)))))),
      )

-- ===== src/Cache/Read.antt =====
-- cache/read.go: a page is looked up, its use is counted, and it is read while it is fresh.
pub mod Found
use bduts.Prelude.{◌+◌, ◌%◌, ◌^◌, Bool, ◌||◌, not, ◌∷◌, Option, none, some, if◌then◌else◌}
use bduts.Prelude.Int.{ℤ, pos, ◌+ℤ◌, ltb_ℤ}
use bduts.Prelude.Go.{Go, ret, ◌>>=◌}
use bduts.Http.{Request}
use bduts.Cache.Disk.{Bytes, Disk, not_exist, make_path, read_file}
use bduts.Cache.Directives.{
  PageMetadata, RequestDirectives, ResponseDirectives, load_request_directives, is_zero,
}
use bduts.Cache.Bolt.{Bolt, Bucket, DbError, missed_cache, no_record, value_not_found}
use bduts.Cache.Store.{
  Page, not_fresh, bad_json, in_db, on_disk, Result, ok, fail, Codec, CachingProperties, meta_key,
  uses_key, put_uint32, uint32, is_not_exist,
}
use bduts.Cache.Remove.{remove_page_metadata}

abbrev pub freshness_end : ResponseDirectives → ℤ
freshness_end d = if is_zero d.smax_age then d.max_age else d.smax_age

abbrev pub after_death : RequestDirectives → ResponseDirectives → ℤ
after_death asked told = if told.must_revalidate then pos 0 else asked.max_stale

-- `time.Now().After(maxAge.Add(afterDeath)) || !time.Now().After(freshTime)`
unfoldable pub is_not_fresh : ℤ → RequestDirectives → ResponseDirectives → Bool
is_not_fresh now asked told =
    ltb_ℤ (freshness_end told +ℤ after_death asked told) now || not (ltb_ℤ asked.min_fresh now)

module _ {Db : Type 0} (bolt : Bolt Db) (codec : Codec) where
  open bolt use {bucket, create_bucket, put, delete_bucket, update}
  open codec use {marshal_meta, unmarshal_meta, marshal_page, unmarshal_page}

  -- The transaction that counts a use; its errors are dropped.
  unfoldable pub uses_tx : Bytes → Bucket → Db → Go (Db × Option DbError)
  uses_tx key b db = elim (b uses_key) [
    | none ↦ ret (db, some value_not_found)
    | some bs ↦ do n ← uint32 bs; ret (put key uses_key (put_uint32 ((n + 1) % 2 ^ 32)) db, none)
  ]

  unfoldable pub count_use : Bytes → Bucket → Db → Go Db
  unfolding uses_tx
  count_use key b db = do counted ← uses_tx key b db; ret (update (λ x. counted) db).0

  unfoldable pub get_page_metadata :
      Bytes → CachingProperties Db → Go (CachingProperties Db × Result PageMetadata)
  unfolding count_use
  get_page_metadata key c = elim (bucket key c.db) [
    | none ↦ ret (c, fail (in_db missed_cache))
    | some b ↦ elim (b meta_key) [
      | none ↦ ret (c, fail (in_db no_record))
      | some m ↦ do
        db ← count_use key b c.db
        ret (
          record c { db = db },
          elim (unmarshal_meta m) [ none ↦ fail bad_json | some meta ↦ ok meta ],
        )
    ]
  ]

  unfoldable pub read_page_from_disk : Bytes → Disk → Result Page
  unfolding read_file make_path
  read_page_from_disk key d = elim (read_file (key ∷ make_path key) d) [
    | none ↦ fail (on_disk not_exist)
    | some bs ↦ elim (unmarshal_page bs) [ none ↦ fail bad_json | some page ↦ ok page ]
  ]

  -- `loaded` is the time when the directives are read, `now` when freshness is tested.
  unfoldable pub get_page_from_cache :
      ℤ → ℤ → Bytes → Request → CachingProperties Db → Go (CachingProperties Db × Result Page)
  unfolding get_page_metadata is_not_fresh read_page_from_disk remove_page_metadata
  get_page_from_cache loaded now key req c =
      let asked = load_request_directives loaded req.header in
      do
        (c', found) ← get_page_metadata key c
        elim found [
          | fail e ↦ ret (c', fail e)
          | ok info ↦
              if is_not_fresh now asked info.response_directives
              then ret (c', fail not_fresh)
              else elim (read_page_from_disk key c'.disk) [
                | ok page ↦ ret (c', ok page)
                | fail e ↦ ret (
                  if is_not_exist e then (remove_page_metadata bolt codec key c').0 else c',
                  fail e,
                )
              ]
        ]

-- ===== src/Users/History.antt =====
-- db/db.go against the directory: sequences of operations, and what is read after them.
use bduts.Prelude.{
  ◌≡◌, ◌≢◌, refl, ap, ◌∙◌, inl, inr, Bool, List, [], ◌∷◌, Option, Option-cases, none, some, All,
}
use bduts.Cache.Disk.{Bytes}
use bduts.Cache.Bolt.{Bolt, DbError, IsTransactional, HasBuckets, HasSeparateBuckets}
use bduts.Users.{does_not_exist, get_salt_and_hash, get_email}
use bduts.Users.Directory.{Entry, Directory, Operation, name_of, specified, view}
use bduts.Users.Refinement.{operate, seen, operate-specified}

-- What GetSaltAndHash and GetEmail say of an entry
abbrev pub secret_of : Option Entry → (Bytes × Bytes) × Option DbError
secret_of none = (([], []), some does_not_exist)
secret_of (some e) = ((e.salt, e.hash), none)

abbrev pub address_of : Option Entry → Bytes × Option DbError
address_of none = ([], some does_not_exist)
address_of (some e) = (e.email, none)

-- One operation, and then others, with all the results
abbrev pub then_on : {S : Type 0} → (S → S × List Bool) → S × Bool → S × List Bool
then_on rest (s, done) = ((rest s).0, done ∷ (rest s).1)

unfoldable pub spec_history : List Operation → Directory → Directory × List Bool
spec_history [] d = (d, [])
spec_history (op ∷ ops) d = let rest = spec_history ops in then_on rest (specified op d)

module _ {Db : Type 0} (bolt : Bolt Db) where
  open bolt use {bucket}

  unfoldable pub history : List Operation → Db → Db × List Bool
  unfolding operate
  history [] db = (db, [])
  history (op ∷ ops) db = let rest = history ops in then_on rest (operate bolt op db)

  abbrev told : Db × List Bool → Directory × List Bool
  told (db, results) = (view bolt db, results)

  get_salt_and_hash-view :
      (name : Bytes) (db : Db) → get_salt_and_hash bolt name db ≡ secret_of (view bolt db name)
  unfolding get_salt_and_hash
  get_salt_and_hash-view name db = elim (Option-cases (bucket name db)) [
    | inl missing ↦ rw (get_salt_and_hash, missing) refl
    | inr (b, there) ↦ rw (get_salt_and_hash, there) refl
  ]

  get_email-view :
      (name : Bytes) (db : Db) → get_email bolt name db ≡ address_of (view bolt db name)
  unfolding get_email
  get_email-view name db = elim (Option-cases (bucket name db)) [
    | inl missing ↦ rw (get_email, missing) refl
    | inr (b, there) ↦ rw (get_email, there) refl
  ]

  module _ (law : IsTransactional bolt) (has : HasBuckets bolt)
      (separate : HasSeparateBuckets bolt) where
    follow :
        (rest : Db → Db × List Bool) (spec : Directory → Directory × List Bool)
        → ((db : Db) → told (rest db) ≡ spec (view bolt db))
        → (r : Db × Bool) → told (then_on rest r) ≡ then_on spec (seen bolt r)
    follow rest spec same (db, done) = ap (λ t. (t.0, done ∷ t.1)) (same db)

    history-specified :
        (ops : List Operation) (db : Db)
        → All (λ op. name_of op ≢ []) ops
        → told (history ops db) ≡ spec_history ops (view bolt db)
    unfolding history spec_history
    history-specified [] db named = refl
    history-specified (op ∷ ops) db named =
        follow (history ops) (spec_history ops) (λ after. history-specified ops after named.1)
          (operate bolt op db)
        ∙ ap (then_on (spec_history ops)) (operate-specified bolt law has separate op db named.0)

    -- Any sequence of InsertUser, ChangePassword and DeleteUser of non-empty names does to the
    -- database what it does to a directory with one entry for each name, and succeeds at the same
    -- calls: only new names are inserted, only old ones are changed or deleted. What
    -- GetSaltAndHash and GetEmail say afterwards of any name is its entry. Bolt must commit, roll
    -- back and keep its buckets as documented.
    pub history-refines :
        (ops : List Operation) (db : Db)
        → All (λ op. name_of op ≢ []) ops
        → ((view bolt (history ops db).0, (history ops db).1) ≡ spec_history ops (view bolt db))
          × ((name : Bytes)
              → (get_salt_and_hash bolt name (history ops db).0
                  ≡ secret_of ((spec_history ops (view bolt db)).0 name))
                × (get_email bolt name (history ops db).0
                    ≡ address_of ((spec_history ops (view bolt db)).0 name)))
    history-refines ops db named =
        let same = history-specified ops db named in
        (
          same,
          λ name. (
            get_salt_and_hash-view name (history ops db).0
                ∙ ap (λ (r : Directory × List Bool). secret_of (r.0 name)) same,
            get_email-view name (history ops db).0
                ∙ ap (λ (r : Directory × List Bool). address_of (r.0 name)) same,
          ),
        )

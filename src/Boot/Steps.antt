-- ===== src/Boot/Steps.antt =====
-- main.go, main: what a step of it leaves of the files that were there before.
use bduts.Prelude.{
  ◌≡◌, refl, ◌∙◌, Bool, true, false, List, [], ◌∷◌, Option, none, some, if◌then◌else◌,
}
use bduts.Cache.Disk.{Bytes, Disk, node, place, directory}
use bduts.Prelude.Go.{Go, ret, panic}
use bduts.Boot.{
  unpanicked, Failure, Ended, done, fatal, crashed, waits, Site, Boot, ◌>>=◌, lift, gets,
  sign_key_missing, sender_refused,
}
use bduts.Boot.Opening.{content_or}

-- The first value, if it is there
abbrev pub first {ℓ} : {A : Type ℓ} → Option A → Option A → Option A
first none b = b
first (some a) b = some a

-- What is there stays as it is: the database of the users, and each entry of the disk. A tick of Observe
-- can change that of the cache.
pub record Keeps {Db Udb : Type 0} (s t : Site Db Udb) : Type 0 where
  pub users : first s.users_db t.users_db ≡ t.users_db
  pub pages : (p : List Bytes) → first (node p s.disk) (node p t.disk) ≡ node p t.disk

module _ {ℓ} {A : Type ℓ} where
  pub first_refl : (a : Option A) → first a a ≡ a
  first_refl none = refl
  first_refl (some x) = refl

  pub first_trans : (a b c : Option A) → first a b ≡ b → first b c ≡ c → first a c ≡ c
  first_trans none b c h k = refl
  first_trans (some x) none c h k = cc
  first_trans (some x) (some y) c h k = h ∙ k

pub first_content :
    {A : Type 0} (blank : A) (a : Option A)
    → first a (some (content_or blank a)) ≡ some (content_or blank a)
first_content blank none = refl
first_content blank (some x) = refl

pub first-place :
    (p : List Bytes) (d : Disk)
    → node [] d ≡ none
    → first (node p d) (node p (place [] directory d)) ≡ node p (place [] directory d)
first-place [] d e = rw e refl
first-place (x ∷ p) d e = first_refl (node (x ∷ p) d)

pub done_inj {ℓ} : {A : Type ℓ} {a b : A} → done a ≡ done b → a ≡ b
done_inj e = cc

module _ {Db Udb : Type 0} where
  pub Keeps-refl : (s : Site Db Udb) → Keeps s s
  Keeps-refl s = record { users = first_refl s.users_db; pages = λ p. first_refl (node p s.disk) }

  pub Keeps-trans : (s t u : Site Db Udb) → Keeps s t → Keeps t u → Keeps s u
  Keeps-trans s t u h k = record {
    users = first_trans s.users_db t.users_db u.users_db h.users k.users;
    pages =
        λ p. first_trans (node p s.disk) (node p t.disk) (node p u.disk) (h.pages p) (k.pages p);
  }

  -- A step that leaves what is there as it is
  pub record AllKeep {ℓ} {A : Type ℓ} (m : Boot (Site Db Udb) A) : Type ℓ where
    pub keeps : (s : Site Db Udb) → Keeps s (m s).1

  pub lift-Keeps {ℓ} : {A : Type ℓ} (r : Ended A) → AllKeep (lift r)
  lift-Keeps r = record { keeps = Keeps-refl }

  pub gets-Keeps {ℓ} : {A : Type ℓ} (f : Site Db Udb → A) → AllKeep (gets f)
  gets-Keeps f = record { keeps = Keeps-refl }

  pub goes_on {ℓ κ} :
      {A : Type ℓ} {B : Type κ} (f : A → Boot (Site Db Udb) B) (s t : Site Db Udb) (r : Ended A)
      → Keeps s t
      → ((a : A) → r ≡ done a → Keeps s (f a t).1)
      → Keeps s (◌>>=◌ (λ _. (r, t)) f s).1
  goes_on f s t (done a) h k = k a refl
  goes_on f s t (fatal e) h k = h
  goes_on f s t crashed h k = h
  goes_on f s t waits h k = h

  pub Keeps-bind {ℓ κ} :
      {A : Type ℓ} {B : Type κ} (m : Boot (Site Db Udb) A) (f : A → Boot (Site Db Udb) B)
      → AllKeep m
      → ((a : A) → AllKeep (f a))
      → AllKeep (m >>= f)
  Keeps-bind m f h k = record {
    keeps = λ s.
        goes_on f s (m s).1 (m s).0 (h.keeps s)
          (λ a e. Keeps-trans s (m s).1 (f a (m s).1).1 (h.keeps s) ((k a).keeps (m s).1));
  }

  pub kept_if {ℓ} :
      {A : Type ℓ} (b : Bool) (s t u : Site Db Udb) (q r : Ended A)
      → Keeps s t
      → Keeps s u
      → Keeps s (if◌then◌else◌ {A = Ended A × Site Db Udb} b (q, t) (r, u)).1
  kept_if true s t u q r h k = h
  kept_if false s t u q r h k = k

-- The failures between the opening of the file of the users and its first admin
abbrev pub is_late_failure : Failure → Bool
is_late_failure sign_key_missing = true
is_late_failure (sender_refused e) = true
is_late_failure e = false

abbrev pub is_late {ℓ} : {A : Type ℓ} → Ended A → Bool
is_late (fatal e) = is_late_failure e
is_late r = false

pub unpanicked-early {ℓ} : {A : Type ℓ} (r : Go A) → is_late (unpanicked r) ≡ false
unpanicked-early (ret a) = refl
unpanicked-early panic = refl

module _ {Db Udb : Type 0} where
  -- A step that leaves the file of the users alone, and does not fail late
  pub record Prepares {ℓ} {A : Type ℓ} (m : Boot (Site Db Udb) A) : Type ℓ where
    pub kept : AllKeep m
    pub users : (s : Site Db Udb) → (m s).1.users_db ≡ s.users_db
    pub early : (s : Site Db Udb) → is_late (m s).0 ≡ false

  pub lift-Prepares {ℓ} : {A : Type ℓ} (r : Ended A) → is_late r ≡ false → Prepares (lift r)
  lift-Prepares r e = record { kept = lift-Keeps r; users = λ s. refl; early = λ s. e }

  pub gets-Prepares {ℓ} : {A : Type ℓ} (f : Site Db Udb → A) → Prepares (gets f)
  gets-Prepares f = record { kept = gets-Keeps f; users = λ s. refl; early = λ s. refl }

  bind-users {ℓ κ} :
      {A : Type ℓ} {B : Type κ} (f : A → Boot (Site Db Udb) B) (s t : Site Db Udb) (r : Ended A)
      → ((a : A) → Prepares (f a))
      → is_late r ≡ false
      → (is_late (◌>>=◌ (λ _. (r, t)) f s).0 ≡ false)
        × ((◌>>=◌ (λ _. (r, t)) f s).1.users_db ≡ t.users_db)
  bind-users f s t (done a) k e = ((k a).early t, (k a).users t)
  bind-users f s t (fatal x) k e = (e, refl)
  bind-users f s t crashed k e = (refl, refl)
  bind-users f s t waits k e = (refl, refl)

  pub Prepares-bind {ℓ κ} :
      {A : Type ℓ} {B : Type κ} (m : Boot (Site Db Udb) A) (f : A → Boot (Site Db Udb) B)
      → Prepares m
      → ((a : A) → Prepares (f a))
      → Prepares (m >>= f)
  Prepares-bind m f h k = record {
    kept = Keeps-bind m f h.kept (λ a. (k a).kept);
    users = λ s. (bind-users f s (m s).1 (m s).0 k (h.early s)).1 ∙ h.users s;
    early = λ s. (bind-users f s (m s).1 (m s).0 k (h.early s)).0;
  }

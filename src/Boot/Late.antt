-- ===== src/Boot/Late.antt =====
-- main.go, main: programs before and after the file of the users is opened, one after the other.
use bduts.Prelude.{◌≡◌, refl, ◌∙◌, true, false, none, some, arith}
use bduts.Boot.{Ended, done, fatal, crashed, waits, Site, Boot, ◌>>=◌}
use bduts.Boot.Steps.{is_late, Prepares}

-- The two properties of a program of main that the file of the users decides
module _ {Db Udb : Type 0} (blank : Udb) where
  -- A late failure leaves an empty file where there was none.
  pub record LeavesBlank {A : Type 0} (m : Boot (Site Db Udb) A) : Type 0 where
    pub late :
        (s : Site Db Udb)
        → s.users_db ≡ none
        → is_late (m s).0 ≡ true
        → (m s).1.users_db ≡ some blank

  goes_late :
      {A B : Type 0} (f : A → Boot (Site Db Udb) B) (s t : Site Db Udb) (r : Ended A)
      → ((a : A) → LeavesBlank (f a))
      → t.users_db ≡ none
      → is_late r ≡ false
      → is_late (◌>>=◌ (λ _. (r, t)) f s).0 ≡ true
      → (◌>>=◌ (λ _. (r, t)) f s).1.users_db ≡ some blank
  goes_late f s t (done a) k e early late = (k a).late t e late
  goes_late f s t (fatal x) k e early late = cc
  goes_late f s t crashed k e early late = cc
  goes_late f s t waits k e early late = cc

  was_late :
      {A B : Type 0} (f : A → Boot (Site Db Udb) B) (s t : Site Db Udb) (r : Ended A)
      → ((a : A) → Prepares (f a))
      → (is_late r ≡ true → t.users_db ≡ some blank)
      → is_late (◌>>=◌ (λ _. (r, t)) f s).0 ≡ true
      → (◌>>=◌ (λ _. (r, t)) f s).1.users_db ≡ some blank
  was_late f s t (done a) k h late = let early = (k a).early t in cc
  was_late f s t (fatal x) k h late = h late
  was_late f s t crashed k h late = cc
  was_late f s t waits k h late = cc

  pub LeavesBlank-bind :
      {A B : Type 0} (m : Boot (Site Db Udb) A) (f : A → Boot (Site Db Udb) B)
      → Prepares m
      → ((a : A) → LeavesBlank (f a))
      → LeavesBlank (m >>= f)
  LeavesBlank-bind m f h k = record {
    late = λ s e late. goes_late f s (m s).1 (m s).0 k (h.users s ∙ e) (h.early s) late;
  }

  pub LeavesBlank-last :
      {A B : Type 0} (m : Boot (Site Db Udb) A) (f : A → Boot (Site Db Udb) B)
      → LeavesBlank m
      → ((a : A) → Prepares (f a))
      → LeavesBlank (m >>= f)
  LeavesBlank-last m f h k = record {
    late = λ s e late. was_late f s (m s).1 (m s).0 k (h.late s e) late;
  }

module _ {Db Udb : Type 0} (old : Udb) where
  -- A result is as `P` says where the file has the database `old`.
  pub record Finds {A : Type 0} (P : A → Type 0) (m : Boot (Site Db Udb) A) : Type 0 where
    pub found : (s : Site Db Udb) (a : A) → s.users_db ≡ some old → (m s).0 ≡ done a → P a

  goes_found :
      {A B : Type 0} (P : B → Type 0) (f : A → Boot (Site Db Udb) B) (s t : Site Db Udb)
      (r : Ended A) (b : B)
      → ((a : A) → r ≡ done a → (f a t).0 ≡ done b → P b)
      → (◌>>=◌ (λ _. (r, t)) f s).0 ≡ done b
      → P b
  goes_found P f s t (done a) b k ok = k a refl ok
  goes_found P f s t (fatal x) b k ok = absurd (ground (arith, ok))
  goes_found P f s t crashed b k ok = absurd (ground (arith, ok))
  goes_found P f s t waits b k ok = absurd (ground (arith, ok))

  pub Finds-bind :
      {A B : Type 0} (P : B → Type 0) (m : Boot (Site Db Udb) A) (f : A → Boot (Site Db Udb) B)
      → Prepares m
      → ((a : A) → Finds P (f a))
      → Finds P (m >>= f)
  Finds-bind P m f h k = record {
    found = λ s b e ok.
        goes_found P f s (m s).1 (m s).0 b (λ a _ ok'. (k a).found (m s).1 b (h.users s ∙ e) ok')
          ok;
  }

  pub Finds-last :
      {A B : Type 0} (Q : A → Type 0) (P : B → Type 0) (m : Boot (Site Db Udb) A)
      (f : A → Boot (Site Db Udb) B)
      → Finds Q m
      → ((a : A) (s : Site Db Udb) (b : B) → Q a → (f a s).0 ≡ done b → P b)
      → Finds P (m >>= f)
  Finds-last Q P m f h k = record {
    found = λ s b e ok.
        goes_found P f s (m s).1 (m s).0 b (λ a was ok'. k a (m s).1 b (h.found s a e was) ok') ok;
  }

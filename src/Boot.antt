-- ===== src/Boot.antt =====
-- main.go, main from its first line to the listener: what it reads, makes and opens, in its order, and
-- how it ends: by logger.Fatal, by a panic, or serving.
pub mod Readers
pub mod Opening
pub mod Sequence
pub mod Steps
pub mod Preparing
pub mod Observing
pub mod Observed
pub mod Keeping
pub mod Enrolling
pub mod Late
pub mod LockedOut
pub mod FirstStart
pub mod Ticking
pub mod Reached
pub mod Entering
pub mod Ready
use bduts.Prelude.{String, Bool, true, false, List, Option, none, some, ◌⊎◌, inl, inr}
use bduts.Prelude.Int.{ℤ}
use bduts.Prelude.Go.{Go, ret, panic}
use bduts.Http.{Url}
use bduts.Backend.{ServerConfig}
use bduts.ServerPool.{Heap}
use bduts.Cache.Disk.{Bytes, Disk}
use bduts.Mail.{SenderError}
use bduts.Auth.{Draws}
use bduts.Cache.Cleaner.{LruItem}
use bduts.Lb.Starting.{FileConfig}

-- The calls of logger.Fatal, each by what failed
pub data Failure : Type 0 where
  config_unopened config_unread config_unclosed servers_unopened servers_unread servers_unclosed :
      Failure
  cache_directory_denied cache_unopened files_directory_denied pages_directory_denied
        pages_unopened :
      Failure
  users_unopened sign_key_missing default_user_failed key_pair_unread listener_failed : Failure
  sender_refused : SenderError → Failure

-- A value; or the end of the program, by os.Exit(1) after the message or by a panic; or a Wait that does
-- not return
pub data Ended {ℓ} (A : Type ℓ) : Type ℓ where
  done : A → Ended A
  fatal : Failure → Ended A
  crashed waits : Ended A

-- A file of the configuration in one run: os.Open, io.ReadAll and Close
pub record Reading : Type 0 where
  pub opens : Bool
  pub content : Option String
  pub closes : Bool

-- What outlives a run: the directory of the cache, the directory of the pages, and the files of the
-- two databases.
pub record Site (Db Udb : Type 0) : Type 0 where
  pub cache_directory : Bool
  pub disk : Disk
  pub cache_db : Option Db
  pub users_db : Option Udb

-- What one run meets: the answers of the system and of the network, by path, variable and port
pub record Machine : Type 0 where
  pub reading : String → Reading
  pub denies : String → Bool
  pub opens : String → Bool
  pub variable : String → Option Bytes
  pub has_key_pair : Bool
  pub listens : ℤ → Bool
  pub dial : String → ℤ → Bool
  pub heap : Heap
  pub draws : Draws
  -- The ticks of Observe before http.Serve, sort.Slice by the uses, and the greatest size that
  -- isSizeExceeded lets pass, by the limit of the cleaner
  pub ticks : List ℤ
  pub sort : List LruItem → List LruItem
  pub limit : ℤ → ℤ

-- json.Unmarshal of the two files, and url.Parse
pub record Parsers : Type 0 where
  pub config : String → Option FileConfig
  pub servers : String → Option (List ServerConfig)
  pub url : String → Option Url

-- What was made before the end stays made.
abbrev pub Boot {ℓ} : Type 0 → Type ℓ → Type ℓ
Boot S A = S → Ended A × S

module _ {S : Type 0} where
  infixl 5 ◌>>=◌ ◌>>◌
  abbrev pub ◌>>=◌ {ℓ κ} : {A : Type ℓ} {B : Type κ} → Boot S A → (A → Boot S B) → Boot S B
  ◌>>=◌ m f s =
      let (r, s') = m s in
      elim r [
        | done a ↦ f a s'
        | fatal e ↦ (fatal e, s')
        | crashed ↦ (crashed, s')
        | waits ↦ (waits, s')
      ]

  abbrev pub ◌>>◌ {ℓ} : {B : Type ℓ} → Boot S (Unit {0}) → Boot S B → Boot S B
  m >> k = m >>= λ _. k

  abbrev pub pure {ℓ} : {A : Type ℓ} → A → Boot S A
  pure a s = (done a, s)

  -- A step that makes nothing
  abbrev pub lift {ℓ} : {A : Type ℓ} → Ended A → Boot S A
  lift r s = (r, s)

  abbrev pub gets {ℓ} : {A : Type ℓ} → (S → A) → Boot S A
  gets f s = (done (f s), s)

-- A Go call in main: its panic ends the program.
abbrev pub unpanicked {ℓ} : {A : Type ℓ} → Go A → Ended A
unpanicked (ret a) = done a
unpanicked panic = crashed

abbrev pub or_fatal {ℓ} : {A : Type ℓ} → Failure → Option A → Ended A
or_fatal e none = fatal e
or_fatal e (some a) = done a

abbrev pub unless_fatal : Failure → Bool → Ended (Unit {0})
unless_fatal e true = done tt
unless_fatal e false = fatal e

abbrev pub sent_by {ℓ} : {A : Type ℓ} → SenderError ⊎ A → Ended A
sent_by (inl e) = fatal (sender_refused e)
sent_by (inr a) = done a

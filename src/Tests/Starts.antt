-- ===== src/Tests/Starts.antt =====
-- The theorems on the starts of the program.
use bduts.Prelude.{
  ap, ◌∙◌, ◌≡◌, refl, String, str_eq, true, false, List, [], ◌∷◌, Option, none, some, arith, All,
  ◌==◌, leb, if◌then◌else◌,
}
use bduts.Prelude.Int.{pos, int64, ◌*ℤ◌}
use bduts.Prelude.Go.{ret, panic}
use bduts.Backend.{ServerConfig, new_backend_config}
use bduts.ServerPool.{Heap}
use bduts.ServerPool.Steps.{IsValid}
use bduts.Cache.Disk.{Bytes, directory}
use bduts.Lb.Starting.{FileConfig, lb_config}
use bduts.Lb.Starting.Checks.{IsChecked}
use bduts.Mail.{ascii}
use bduts.Auth.{is_authorized}
use bduts.Boot.{Reading, Site, Machine, Parsers, done}
use bduts.Boot.FirstStart.{default_user, default_password}
use bduts.Boot.Opening.{new_ticker}
use bduts.Boot.Steps.{Keeps, is_late}
use bduts.Boot.Keeping.{main-Keeps}
use bduts.Boot.Sequence.{Serving, main}
use bduts.Boot.Ticking.{lb_config_ticks}
use bduts.Boot.LockedOut.{starts, main-locked_out}
use bduts.Boot.Entering.{IsWellSet, Entered}
use bduts.Boot.Ready.{main-serves}
use bduts.Tests.Data.{url_of, server}
use bduts.Tests.Store.{Buckets, bolt, bolt-IsTransactional, bolt-HasBuckets}
use bduts.Tests.Codecs.{codec}
use bduts.Tests.Trusts.{trust, trust-Verifies, pb, sb, draws, draws-IsDrawn, draws-HasLimit}
use bduts.Tests.Admission.{delivers}

abbrev config_file : FileConfig
config_file = record {
  port = pos 8080;
  health_check_period = pos 10000;
  max_cache_size = pos 1000000;
  observe_frequency = pos 10000;
}

abbrev configured : List ServerConfig
configured =
    record { url = "a"; health_check_tcp_timeout = pos 5; maximal_requests = pos 2 }
    ∷ record { url = "b"; health_check_tcp_timeout = pos 5; maximal_requests = pos 1 }
    ∷ []

abbrev parsers : Parsers
parsers = record {
  config = λ text. some config_file;
  servers = λ text. some configured;
  url = λ text. some (url_of text);
}

abbrev good_file : Reading
good_file = record { opens = true; content = some "{}"; closes = true }

abbrev unused : Heap
unused = record { cell = λ r. server "z" false 0 0; next = 0 }

-- Everything is there but the variables that `variable` lacks.
abbrev machine : (String → Option Bytes) → Machine
machine variable = record {
  reading = λ path. good_file;
  denies = λ path. false;
  opens = λ path. true;
  variable = variable;
  has_key_pair = true;
  listens = λ port. true;
  dial = λ host timeout. str_eq host "a";
  heap = unused;
  draws = draws;
  ticks = [];
  sort = λ items. items;
  limit = λ max. max;
}

abbrev bare : Machine
bare = machine (λ name. none)

abbrev well_set : Machine
well_set = machine (λ name. some (1 ∷ []))

abbrev new_site : Site Buckets Buckets
new_site = record {
  cache_directory = false;
  disk = record { entries = []; full = false };
  cache_db = none;
  users_db = none;
}

well_set-IsWellSet : IsWellSet well_set parsers config_file configured
well_set-IsWellSet = record {
  config = record { opens = refl; text = "{}"; content = refl; decodes = refl; closes = refl };
  pool = record { opens = refl; text = "{}"; content = refl; decodes = refl; closes = refl };
  ticks = (10000, refl, omega arith, omega arith);
  checks = (10000, refl, omega arith, omega arith);
  quiet = refl;
  made = refl;
  made_pages = refl;
  opens_pages = refl;
  opens_cache = refl;
  opens_users = refl;
  user = refl;
  password = refl;
  host = refl;
  smtp_port = refl;
  key = 1 ∷ [];
  keyed = refl;
  pair = refl;
  free_port = refl;
  limits = ((2, refl), ((1, refl), tt));
  few = omega arith;
  unfilled = λ r. omega arith;
}

nobody_yet : bolt.bucket default_user [] ≡ none
unfolding ascii
nobody_yet = refl

main-serves_example :
    (v : Serving Buckets Buckets) × (t : Site Buckets Buckets) × (main bolt codec bolt trust
        delivers [] [] parsers well_set new_site
      ≡ (done v, t))
    × (v.config ≡ lb_config config_file)
    × IsValid v.system.state
    × All (IsChecked well_set.dial v.system.state.heap) v.system.state.pool.servers
    × (t.cache_db ≡ some v.system.cache.db)
    × (t.users_db ≡ some v.system.accounts.db)
    × Entered bolt trust new_site.users_db v.system.accounts.db
main-serves_example =
    main-serves bolt codec bolt trust delivers [] [] parsers well_set config_file configured
      well_set-IsWellSet bolt-IsTransactional bolt-HasBuckets pb sb draws-IsDrawn draws-HasLimit
      trust-Verifies nobody_yet new_site tt

-- What the first start leaves that finds no variables
abbrev left : Site Buckets Buckets
left = record {
  cache_directory = true;
  disk = record { entries = ([], directory) ∷ []; full = false };
  cache_db = some [];
  users_db = some [];
}

-- The cleaner has a tick before the end.
abbrev ticked : Machine
ticked = record bare { ticks = pos 0 ∷ [] }

main-Keeps_example : Keeps left (main bolt codec bolt trust delivers [] [] parsers ticked left).1
main-Keeps_example = main-Keeps bolt codec bolt trust delivers [] [] parsers ticked left

lb_config_ticks_example :
    new_ticker (lb_config config_file).observe_frequency
    ≡ (if 10000 == 0 then panic else if leb 10000 9223372036854 then ret tt else panic)
lb_config_ticks_example = lb_config_ticks config_file 10000 refl (omega arith)

-- The first start finds no variables for the letters.
bare_late : is_late (main bolt codec bolt trust delivers [] [] parsers bare new_site).0 ≡ true
unfolding main int64 ◌*ℤ◌ new_backend_config
bare_late = refl

bare_leaves : (main bolt codec bolt trust delivers [] [] parsers bare new_site).1 ≡ left
unfolding main int64 ◌*ℤ◌ new_backend_config
bare_leaves = refl

-- The next one serves.
abbrev served : Serving Buckets Buckets
served =
    (main-serves bolt codec bolt trust delivers [] [] parsers well_set config_file configured
      well_set-IsWellSet bolt-IsTransactional bolt-HasBuckets pb sb draws-IsDrawn draws-HasLimit
      trust-Verifies nobody_yet left tt).0

next_serves :
    (main bolt codec bolt trust delivers [] [] parsers well_set (
      starts bolt codec bolt trust delivers [] [] parsers []
        (main bolt codec bolt trust delivers [] [] parsers bare new_site).1)).0
    ≡ done served
unfolding starts
next_serves =
    let run =
      (main-serves bolt codec bolt trust delivers [] [] parsers well_set config_file configured
        well_set-IsWellSet bolt-IsTransactional bolt-HasBuckets pb sb draws-IsDrawn draws-HasLimit
        trust-Verifies nobody_yet left tt).2 in
    ap (λ s. (main bolt codec bolt trust delivers [] [] parsers well_set s).0) bare_leaves
    ∙ ap (λ r. r.0) run

no_buckets : (key : Bytes) → bolt.bucket key [] ≡ none
no_buckets [] = refl
no_buckets (x ∷ key) = refl

main-locked_out_example :
    is_authorized trust bolt default_user default_password served.system.accounts.db ≡ false
main-locked_out_example =
    main-locked_out bolt codec bolt trust delivers [] [] parsers bare well_set [] new_site served
      default_user default_password refl bare_late no_buckets next_serves

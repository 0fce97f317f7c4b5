-- ===== src/Boot/Readers.antt =====
-- config/loadBalancerConfig.go, config/serversConfig.go and config/cacheConfig.go, the readers, and
-- main.go, loadBalancerConfigure and serversConfigure. Close is deferred, and logger.Fatal ends the
-- program without it.
use bduts.Prelude.{String, Bool, List, Option, none, some, if◌then◌else◌}
use bduts.Backend.{ServerConfig}
use bduts.Lb.Starting.{FileConfig}
use bduts.Boot.{
  Failure, config_unopened, config_unread, config_unclosed, servers_unopened, servers_unread,
  servers_unclosed, Ended, done, fatal, Reading, Machine, Parsers,
}

-- A reader that has opened its file; `none` is the error of os.Open.
pub record Reader : Type 0 where
  pub file : Reading

unfoldable pub new_reader : Reading → Option Reader
new_reader r = if r.opens then some (record { file = r }) else none

-- Whether Close succeeds
unfoldable pub close_reader : Reader → Bool
close_reader r = r.file.closes

-- io.ReadAll and json.Unmarshal; `none` is the error of either.
abbrev pub read_all : {A : Type 0} → (String → Option A) → Reader → Option A
read_all decode r = elim r.file.content [ none ↦ none | some text ↦ decode text ]

unfoldable pub read_load_balancer_config : (String → Option FileConfig) → Reader → Option FileConfig
read_load_balancer_config = read_all

unfoldable pub read_servers_config :
    (String → Option (List ServerConfig)) → Reader → Option (List ServerConfig)
read_servers_config = read_all

-- cachePairLocationRequestKey
pub record LocationKey : Type 0 where
  pub location : String
  pub request_key : String

unfoldable pub read_cache_config :
    (String → Option (List LocationKey)) → Reader → Option (List LocationKey)
read_cache_config = read_all

-- The value that is returned once the deferred Close has succeeded
abbrev pub closed : {A : Type 0} → Failure → Reader → A → Ended A
closed e r a = if close_reader r then done a else fatal e

module _ (m : Machine) (parsers : Parsers) where
  unfoldable pub load_balancer_configure : Ended FileConfig
  unfolding new_reader read_load_balancer_config close_reader
  load_balancer_configure = elim (new_reader (m.reading "./resources/config.json")) [
    | none ↦ fatal config_unopened
    | some r ↦ elim (read_load_balancer_config parsers.config r) [
      | none ↦ fatal config_unread
      | some c ↦ closed config_unclosed r c
    ]
  ]

  unfoldable pub servers_configure : Ended (List ServerConfig)
  unfolding new_reader read_servers_config close_reader
  servers_configure = elim (new_reader (m.reading "./resources/servers.json")) [
    | none ↦ fatal servers_unopened
    | some r ↦ elim (read_servers_config parsers.servers r) [
      | none ↦ fatal servers_unread
      | some servers ↦ closed servers_unclosed r servers
    ]
  ]

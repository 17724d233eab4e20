-- ===== src/Boot.antt =====
-- main.go main, functions.go getConfig, bindFlags and getIP: how a node comes up, from its
-- configuration to the key of its engine. viper, pflag and net are parameters.
pub mod Laws
pub mod Checks
pub mod Flags
use cave.Base.{
  ℕ, Bool, true, false, not, ◌&&◌, Option, none, some, List, [], ◌∷◌, ◌++◌, Bytes, codes, eqb,
  if◌then◌else◌, Err, Outcome, ret, fail, panic, ◌>>?◌, Exec,
}
use cave.Types.{Mode, dev, prod}
use cave.Bolt.{Bolt}
use cave.Crypto.{
  AesKey, Ciphers, CryptoCodecs, Crypto, KeyFile, new_crypto, generate_shared_key, seal_shared_key,
}
use cave.Kv.Open.{new_kv}

pub record ClusterConfig : Type 0 where
  pub port : ℕ
  pub discovery_host : Bytes
  pub host : Bytes
  pub sync_port : ℕ

pub record KvConfig : Type 0 where
  pub encryption : Bool
  pub db_path : Bytes

pub record ApiConfig : Type 0 where
  pub enable : Bool
  pub port : ℕ
  pub authentication : Bool
  pub enable_metrics : Bool

pub record UiConfig : Type 0 where
  pub enable : Bool
  pub port : ℕ
  pub authentication : Bool

pub record SslConfig : Type 0 where
  pub enable : Bool
  pub certificate : Bytes
  pub key : Bytes

pub record PerfConfig : Type 0 where
  pub enable_metrics : Bool
  pub enable_http_logs : Bool
  pub buffer_size : ℕ

pub record PluginAppConfig : Type 0 where
  pub plugin_path : Bytes
  pub allow_unsigned : Bool
  pub blacklist : List Bytes
  pub socket_prefix : Bytes

pub record Config : Type 0 where
  pub mode : Bytes
  pub cluster : ClusterConfig
  pub kv : KvConfig
  pub api : ApiConfig
  pub ui : UiConfig
  pub ssl : SslConfig
  pub perf : PerfConfig
  -- Auth.Provider
  pub provider : Bytes
  pub plugin : PluginAppConfig

-- The values that getConfig starts from.
abbrev pub default_config : Config
default_config = record {
  mode = codes "dev";
  cluster = record {
    port = 2000;
    discovery_host = codes "127.0.0.1:2000";
    host = [];
    sync_port = 1999;
  };
  kv = record { encryption = true; db_path = codes "kv.db" };
  api = record { enable = true; port = 2001; authentication = true; enable_metrics = true };
  ui = record { enable = true; port = 443; authentication = true };
  ssl = record { enable = true; certificate = []; key = [] };
  perf = record { enable_metrics = true; enable_http_logs = true; buffer_size = 4096 };
  provider = [];
  plugin = record {
    plugin_path = codes "./plugins.d/";
    allow_unsigned = true;
    blacklist = [];
    socket_prefix = codes "/tmp/";
  };
}

-- What the libraries give: the machine id, the parse of the flags and the flag `help`, BindPFlags and
-- ReadInConfig, then what Unmarshal makes of the defaults, and the address of the connection that
-- getIP opens.
pub record ConfigInput : Type 0 where
  pub machine_id : Outcome Bytes
  pub parsed : Outcome (Unit {0})
  pub help : Outcome Bool
  pub bound : Outcome (Unit {0})
  pub file : Outcome (Unit {0})
  pub unmarshal : Config → Outcome (Unit {0}) × Config
  pub local_address : Outcome Bytes

-- getIP; the error is printed.
unfoldable pub get_ip : Outcome Bytes → Outcome Bytes
get_ip (ret a) = ret a
get_ip (fail e) = ret (codes "127.0.0.1")
get_ip panic = panic

-- What getConfig comes to: a configuration, or the end of the program with status 2.
pub data Loaded : Type 0 where
  loaded : Config → Loaded
  exit_2 : Loaded

unfoldable pub check_mode : Config → Loaded
check_mode c =
    if not (eqb c.mode (codes "prod")) && not (eqb c.mode (codes "dev")) then exit_2 else loaded c

-- An address that is not configured is looked up.
unfoldable pub with_host : Outcome Bytes → Config → Outcome Config
unfolding get_ip
with_host local c =
    if eqb c.cluster.host []
    then (get_ip local >>? λ a. ret (record c { cluster = record c.cluster { host = a } }))
    else ret c

-- After Unmarshal; its error is dropped together with the checks that follow.
unfoldable pub settle_config : Outcome Bytes → Outcome (Unit {0}) × Config → Outcome Loaded
unfolding with_host check_mode
settle_config local (ret u, c) = with_host local c >>? λ c'. ret (check_mode c')
settle_config local (fail e, c) = ret (loaded c)
settle_config local (panic, c) = panic

-- bindFlags: whether it prints the usage and ends the program with status 2.
unfoldable pub bind_flags : ConfigInput → Outcome Bool
bind_flags i = i.parsed >>? λ _. i.help

unfoldable pub get_config : ConfigInput → Outcome Loaded
unfolding bind_flags settle_config
get_config i = i.machine_id >>? λ id. bind_flags i >>? λ usage.
    if usage
    then ret exit_2
    else (i.bound >>? λ _.
        i.file >>? λ _. settle_config i.local_address (i.unmarshal default_config))

-- The tests `Mode == "dev"` that the components make.
unfoldable pub mode_of : Config → Mode
mode_of c = if eqb c.mode (codes "dev") then dev else prod

-- if err != nil { panic(err) }
abbrev pub must : {A : Type 0} → Outcome A → Outcome A
must (ret a) = ret a
must (fail e) = panic
must panic = panic

-- The random source of GenerateSharedKey.
pub record Random : Type 0 where
  pub pass : ℕ → Outcome Bytes
  pub nonce : ℕ → Outcome Bytes

-- What main has when the keys are settled: the Crypto and the key file.
abbrev pub Keys : Type 0
Keys = Crypto × KeyFile

abbrev pub pointer : {A : Type 0} → Option A → Outcome A
pointer none = panic
pointer (some a) = ret a

abbrev pub sealed_keys : Crypto → Outcome (Unit {0}) × KeyFile → Outcome Keys
sealed_keys c (ret u, f) = ret (c, f)
sealed_keys c (fail e, f) = panic
sealed_keys c (panic, f) = panic

module _ (C : Ciphers) (K : CryptoCodecs) where
  -- The body of `if app.Cluster.genRSA`
  unfoldable pub make_keys : Random → Crypto → KeyFile → Outcome Keys
  make_keys random c f = must (generate_shared_key C K random.pass random.nonce c) >>? λ c'.
      pointer c'.privkey >>? λ privkey.
      sealed_keys c' (seal_shared_key C K c'.sharedkey privkey false f)

  unfoldable pub settle_keys : Bool → Random → Crypto → KeyFile → Outcome Keys
  unfolding make_keys
  settle_keys true random c f = make_keys random c f
  settle_keys false random c f = ret (c, f)

  -- NewPlugins, whose tokens live in the token store, and newKV with the keys of main
  open_engine :
      (B : Bolt)
      → Outcome (Unit {0})
      → Outcome B.State
      → Err
      → Keys
      → Outcome (B.State × Option AesKey × KeyFile)
  open_engine B plugins opened missing (c, f) = must plugins >>? λ _.
      pointer c.privkey >>? λ privkey.
      must (new_kv B C K opened missing privkey f) >>? λ (s, key). ret (s, key, f)

  -- From newCrypto to newKV: the state of the engine, its shared key and the key file. `cluster` is
  -- what newCluster and registerHandlers come to, `plugins` what NewPlugins comes to; `gen_rsa` is
  -- what Cluster.Start has set when it signals clusterReady.
  unfoldable pub boot :
      (B : Bolt)
      → Bool
      → Outcome Bytes
      → Outcome (Unit {0})
      → Outcome (Unit {0})
      → Random
      → Outcome B.State
      → Err
      → KeyFile
      → Outcome (B.State × Option AesKey × KeyFile)
  unfolding settle_keys open_engine
  boot B gen_rsa machine_id cluster plugins random opened missing f =
      must (new_crypto C K machine_id) >>? λ c.
      must cluster >>? λ _. settle_keys gen_rsa random c f >>? open_engine B plugins opened missing

-- The order in which main asks its parts to end, at a signal of the system.
abbrev pub shutdown_order : List Bytes
shutdown_order =
    codes "api" ∷ codes "kv" ∷ codes "cluster" ∷ codes "plugins" ∷ codes "tokens" ∷ codes "log" ∷ []

-- TERMINATOR[t] <- true waits until the part receives: main ends when all have.
unfoldable pub shut_down : (Bytes → Bool) → List Bytes → Bool
shut_down receives [] = true
shut_down receives (t ∷ ts) = receives t && shut_down receives ts

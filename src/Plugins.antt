-- ===== src/Plugins.antt =====
-- plugins.go NewPlugins and pluginList: the plugins of a node and their tokens. The file system, yaml
-- and the process manager libsubrpc are parameters.
pub mod Laws
pub mod Gauges
pub mod Processes
use cave.Base.{
  ℕ, ◌+◌, ◌*◌, ◌^◌, Bool, true, false, ◌||◌, Option, none, some, List, [], ◌∷◌, ◌++◌, Bytes, codes,
  eqb, if◌then◌else◌, Dict, lookup, insert, Outcome, ret, fail, panic, ◌>>?◌, length, drop, leb,
  ◌-◌, ◌&&◌,
}
use cave.Types.{Message, Codec}
use cave.Token.{Token, TokenStore, entries, erase_entry, Sync, IssueInput, and_then, issue}

-- `Config` is what yaml makes of the plugin's own configuration.
pub record PluginConfig (Settings : Type 0) : Type 0 where
  pub name : Bytes
  pub version : Bytes
  pub exe_name : Bytes
  pub typ : Bytes
  pub sub_type : Bytes
  pub env : Dict Bytes
  pub config : Settings
  pub startup_delay : ℕ

-- subrpc.ProcessOptions, as far as NewPlugins sets it; the delay is in nanoseconds.
pub record ProcessOptions (Settings : Type 0) : Type 0 where
  pub name : Bytes
  pub typ : Bytes
  pub config : Settings
  pub exe_path : Bytes
  pub env : Dict Bytes
  pub token : Bytes
  pub startup_delay : ℕ

-- ioutil.ReadDir and ReadFile, yaml.Unmarshal, and whether os.Stat finds a file.
pub record Files (Settings : Type 0) : Type 0 where
  pub read_dir : Bytes → Outcome (List Bytes)
  pub read_file : Bytes → Outcome Bytes
  pub unmarshal : Bytes → Outcome (PluginConfig Settings)
  pub is_there : Bytes → Bool

-- The process manager: NewManager and NewProcess.
pub record Manager (Settings : Type 0) : Type 1 where
  pub State : Type 0
  pub start : Outcome State
  pub new_process : ProcessOptions Settings → State → Outcome State

-- strings.HasSuffix(s, suffix)
abbrev pub ends_with : Bytes → Bytes → Bool
ends_with suffix s =
    leb (length suffix) (length s) && eqb (drop (length s - length suffix) s) suffix

abbrev pub is_yaml : Bytes → Bool
is_yaml f = ends_with (codes ".yaml") f || ends_with (codes ".yml") f

unfoldable pub yaml_files : List Bytes → List Bytes
yaml_files [] = []
yaml_files (f ∷ fs) = let rest = yaml_files fs in if is_yaml f then f ∷ rest else rest

module _ {Settings : Type 0} (F : Files Settings) where
  -- The loop over the yaml files: a plugin whose executable is missing is left out, one whose name
  -- is there already replaces it.
  unfoldable pub read_plugins :
      Bytes → List Bytes → Dict (PluginConfig Settings) → Outcome (Dict (PluginConfig Settings))
  read_plugins path [] found = ret found
  read_plugins path (y ∷ ys) found = F.read_file (path ++ (codes "/" ++ y)) >>? λ f.
      F.unmarshal f >>? λ c.
      read_plugins path ys
        (if F.is_there (path ++ (codes "/" ++ c.exe_name)) then insert c.name c found else found)

  unfoldable pub plugin_list : Bytes → Outcome (Dict (PluginConfig Settings))
  unfolding read_plugins yaml_files
  plugin_list path = F.read_dir path >>? λ ls. read_plugins path (yaml_files ls) []

-- A call in the token store, which may wait for its mutex for ever, of a function that does not
-- touch it.
abbrev pub lift : {A : Type 0} → Outcome A → Sync A
lift r t = some (r, t)

abbrev pub plugin_type : {Settings : Type 0} → PluginConfig Settings → Bytes
plugin_type i = codes "plugin:" ++ i.typ

abbrev pub options_of :
    {Settings : Type 0} → PluginConfig Settings → Token → ProcessOptions Settings
options_of i t = record {
  name = i.name;
  typ = i.typ;
  config = i.config;
  exe_path = codes "./plugins.d/" ++ i.exe_name;
  env = i.env;
  token = t.token;
  startup_delay = i.startup_delay * 10 ^ 9;
}

module _ {Settings : Type 0} (M : Manager Settings) (tokens : Codec (Option (Dict Token)))
    (messages : Codec Message) where
  -- The loop of NewPlugins; `inputs` gives what Issue reads for the plugin of a name.
  unfoldable pub launch :
      (Bytes → IssueInput) → Dict (PluginConfig Settings) → M.State → Sync M.State
  launch inputs [] m t = some (ret m, t)
  launch inputs ((k, i) ∷ plugs) m t =
      and_then (issue tokens messages i.name (plugin_type i) (false ∷ []) (inputs k))
        (λ tok. and_then (lift (M.new_process (options_of i tok) m)) (launch inputs plugs)) t

  -- NewPlugins; Go leaves the order of `range` open, so it is a parameter.
  unfoldable pub new_plugins :
      Files Settings
      → (Dict (PluginConfig Settings) → Dict (PluginConfig Settings))
      → (Bytes → IssueInput)
      → Sync M.State
  unfolding launch plugin_list
  new_plugins F range inputs = and_then (lift M.start) (λ m.
      and_then (lift (plugin_list F (codes "./plugins.d")))
        (λ plugs. launch inputs (range plugs) m))

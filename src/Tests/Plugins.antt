-- ===== src/Tests/Plugins.antt =====
-- The theorem on the tokens of plugins at a directory with one plugin.
use cave.Base.{◌≡◌, refl, true, false, some, [], ◌∷◌, List, ret, codes, All, eqb, insert}
use cave.Cluster.{emit}
use cave.Token.{TokenStore, new_token, issue, put_token, emit_store}
use cave.Plugins.{
  PluginConfig, ProcessOptions, Files, Manager, plugin_list, read_plugins, yaml_files, new_plugins,
  launch, options_of, plugin_type,
}
use cave.Plugins.Laws.{IsHeld, new_plugins-validate}
use cave.Tests.Nodes.{json}
use cave.Tests.Token.{both, listing, tokens, input}

abbrev ldap : PluginConfig (Unit {0})
ldap = record {
  name = codes "ldap";
  version = [];
  exe_name = codes "ldap";
  typ = codes "auth";
  sub_type = [];
  env = [];
  config = tt;
  startup_delay = 1;
}

abbrev files : Files (Unit {0})
files = record {
  read_dir = λ d. ret (codes "ldap" ∷ codes "ldap.yaml" ∷ []);
  read_file = λ f. ret f;
  unmarshal = λ f. ret ldap;
  is_there = λ f. true;
}

abbrev manager : Manager (Unit {0})
manager = record {
  State = List (ProcessOptions (Unit {0}));
  start = ret [];
  new_process = λ o m. ret (o ∷ m);
}

abbrev plugged : TokenStore
plugged = record both {
  store = some (
      insert (0 ∷ []) (new_token (codes "ldap") (plugin_type ldap) (false ∷ []) input (codes "n"))
        listing);
  cluster =
      (emit json.messages (codes "token") (3 ∷ []) (codes "token:update") (1 ∷ []) both.cluster).1;
}

listed_plugins : plugin_list files (codes "./plugins.d") ≡ ret ((codes "ldap", ldap) ∷ [])
unfolding plugin_list read_plugins yaml_files insert eqb
listed_plugins = refl

plugins_start :
    new_plugins manager tokens json.messages files (λ m. m) (λ k. input) both
    ≡ some (
      ret (
          options_of ldap
            (new_token (codes "ldap") (plugin_type ldap) (false ∷ []) input (codes "n"))
          ∷ []),
      plugged,
    )
unfolding new_plugins launch plugin_list read_plugins yaml_files insert eqb issue put_token
    emit_store emit
plugins_start = refl

new_plugins-validate_example :
    All
      (IsHeld (λ k. input) (codes "plugin:auth") (codes "ldap") 70 71 plugged)
      ((codes "ldap", ldap) ∷ [])
new_plugins-validate_example =
    new_plugins-validate manager tokens json.messages files (λ m. m) (λ k. input) both
      (codes "plugin:auth") (codes "ldap") 70 71 listed_plugins (tt, tt) plugins_start

-- ===== src/Boot/Flags/Defaults.antt =====
-- The defaults of the flags and those of the configuration.
use cave.Base.{◌≡◌, refl, List, [], ◌∷◌, Bytes, codes, eqb, erase}
use cave.Boot.{Config, default_config}
use cave.Boot.Flags.{Default, switch, text, word, texts, flags}

-- The settings of a configuration by the names that viper gives them.
abbrev pub settings : Config → List (Bytes × Default)
settings c =
    (codes "mode", text c.mode)
    ∷ (codes "cluster.port", word c.cluster.port)
    ∷ (codes "cluster.discoveryhost", text c.cluster.discovery_host)
    ∷ (codes "cluster.host", text c.cluster.host)
    ∷ (codes "cluster.syncport", word c.cluster.sync_port)
    ∷ (codes "kv.encryption", switch c.kv.encryption)
    ∷ (codes "kv.dbpath", text c.kv.db_path)
    ∷ (codes "api.enable", switch c.api.enable)
    ∷ (codes "api.port", word c.api.port)
    ∷ (codes "api.authentication", switch c.api.authentication)
    ∷ (codes "api.enablemetrics", switch c.api.enable_metrics)
    ∷ (codes "ui.enable", switch c.ui.enable)
    ∷ (codes "ui.port", word c.ui.port)
    ∷ (codes "ui.authentication", switch c.ui.authentication)
    ∷ (codes "ssl.enable", switch c.ssl.enable)
    ∷ (codes "ssl.certificate", text c.ssl.certificate)
    ∷ (codes "ssl.key", text c.ssl.key)
    ∷ (codes "performance.enablemetrics", switch c.perf.enable_metrics)
    ∷ (codes "performance.enablehttplogs", switch c.perf.enable_http_logs)
    ∷ (codes "performance.buffersize", word c.perf.buffer_size)
    ∷ (codes "auth.provider", text c.provider)
    ∷ (codes "plugin.pluginpath", text c.plugin.plugin_path)
    ∷ (codes "plugin.allowunsigned", switch c.plugin.allow_unsigned)
    ∷ (codes "plugin.blacklist", texts c.plugin.blacklist)
    ∷ (codes "plugin.socketprefix", text c.plugin.socket_prefix)
    ∷ []

-- Beside `help`, the flags are the settings, each with the default of getConfig, but for the provider of
-- the authentication, which has none there.
flags-settings :
    erase (codes "help") flags ≡ settings (record default_config { provider = codes "token" })
unfolding flags erase eqb
flags-settings = refl

-- ===== src/Boot/Flags.antt =====
-- functions.go bindFlags: the flags that are declared, with their defaults.
pub mod Defaults
use cave.Base.{ℕ, Bool, true, false, List, [], ◌∷◌, Bytes, codes}

-- The default of a flag, of the type of the flag.
pub data Default : Type 0 where
  switch : Bool → Default
  text : Bytes → Default
  word : ℕ → Default
  texts : List Bytes → Default

-- The calls on the FlagSet in their order.
unfoldable pub flags : List (Bytes × Default)
flags =
    (codes "help", switch false)
    ∷ (codes "mode", text (codes "dev"))
    ∷ (codes "cluster.port", word 2000)
    ∷ (codes "cluster.discoveryhost", text (codes "127.0.0.1:2000"))
    ∷ (codes "cluster.host", text [])
    ∷ (codes "cluster.syncport", word 1999)
    ∷ (codes "kv.encryption", switch true)
    ∷ (codes "kv.dbpath", text (codes "kv.db"))
    ∷ (codes "api.enable", switch true)
    ∷ (codes "api.port", word 2001)
    ∷ (codes "api.authentication", switch true)
    ∷ (codes "api.enablemetrics", switch true)
    ∷ (codes "ui.enable", switch true)
    ∷ (codes "ui.port", word 443)
    ∷ (codes "ui.authentication", switch true)
    ∷ (codes "ssl.enable", switch true)
    ∷ (codes "ssl.certificate", text [])
    ∷ (codes "ssl.key", text [])
    ∷ (codes "performance.enablemetrics", switch true)
    ∷ (codes "performance.enablehttplogs", switch true)
    ∷ (codes "performance.buffersize", word 4096)
    ∷ (codes "auth.provider", text (codes "token"))
    ∷ (codes "plugin.pluginpath", text (codes "./plugins.d/"))
    ∷ (codes "plugin.allowunsigned", switch true)
    ∷ (codes "plugin.blacklist", texts [])
    ∷ (codes "plugin.socketprefix", text (codes "/tmp/"))
    ∷ []

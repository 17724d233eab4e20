-- ===== src/Kv/Open/Database.antt =====
-- kv.go dbOpen and dbClose. The calls of the file system and of bbolt are parameters.
pub mod Directory
use cave.Base.{
  ◌-◌, Bool, List, [], ◌∷◌, ◌++◌, Bytes, length, take, ltb, if◌then◌else◌, Exec, ◌>>=◌, ◌>>◌, pure,
}
use cave.Path.{slash, split}

-- os.Stat with os.IsNotExist, os.MkdirAll, bbolt.Open and the Close of a database, with what they do.
pub record Disk (D : Type 0) : Type 1 where
  pub Files : Type 0
  pub is_missing : Bytes → Files → Bool
  pub mkdir_all : Bytes → Exec Files (Unit {0})
  pub open_db : Bytes → Exec Files D
  pub close : D → Exec Files (Unit {0})

-- strings.Join(s, "/")
unfoldable pub join : List Bytes → Bytes
join [] = []
join (p ∷ []) = p
join (p ∷ q ∷ r) = p ++ slash ∷ join (q ∷ r)

module _ {D : Type 0} (K : Disk D) where
  -- The directory of a file that is not there is made first, if the path names one.
  unfoldable pub make_parent : Bytes → Exec K.Files (Unit {0})
  unfolding join
  make_parent path =
      let p = split slash path in
      if ltb 1 (length p) then K.mkdir_all (join (take (length p - 1) p)) else pure tt

  unfoldable pub db_open : Bytes → Exec K.Files D
  unfolding make_parent
  db_open path fs =
      if K.is_missing path fs then (make_parent path >> K.open_db path) fs else K.open_db path fs

  unfoldable pub db_close : D → Exec K.Files (Unit {0})
  db_close db = K.close db

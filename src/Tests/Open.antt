-- ===== src/Tests/Open.antt =====
-- The theorem on dbOpen at a file in a directory that is not there.
use cave.Base.{◌≡◌, refl, true, List, [], ◌∷◌, ◌++◌, Bytes, codes, ◌>>◌, pure, ret}
use cave.Path.{slash}
use cave.Kv.Open.Database.{Disk, db_open}
use cave.Kv.Open.Database.Directory.{db_open-directory}

-- A disk that notes what is made and opened.
abbrev disk : Disk (Unit {0})
disk = record {
  Files = List Bytes;
  is_missing = λ path fs. true;
  mkdir_all = λ dir fs. (ret tt, dir ∷ fs);
  open_db = λ path fs. (ret tt, path ∷ fs);
  close = λ db. pure tt;
}

db_open-directory_example :
    db_open disk (codes "var/cave" ++ slash ∷ codes "kv.db") []
    ≡ (disk.mkdir_all (codes "var/cave")
          >> disk.open_db (codes "var/cave" ++ slash ∷ codes "kv.db"))
        []
db_open-directory_example =
    db_open-directory disk (codes "var/cave") (codes "kv.db") []
      (λ e. cc, (λ e. cc, (λ e. cc, (λ e. cc, (λ e. cc, tt))))) refl

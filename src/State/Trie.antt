-- ===== src/State/Trie.antt =====
-- What crates/service-runtime-state/src/lib.rs uses of the crate `sp_trie`: a trie with its nodes
-- and root, of which a node may be missing. `none` is the library's error.
use jam_script.Prelude.{List, Option, none, some, Bytes, bytes_eq, if◌then◌else◌, ◌≡◌}

pub record TrieLib : Type 1 where
  pub Db : Type 0
  pub empty : Db
  pub root : Db → Bytes
  pub get : Db → Bytes → Option (Option Bytes)
  pub insert : Db → Bytes → Bytes → Option Db
  pub remove : Db → Bytes → Option Db
  -- a storage proof recorded while the keys are read, and the partial trie that it makes
  pub prove : Db → List Bytes → Option (List Bytes)
  pub from_proof : Bytes → List Bytes → Db

-- The documented behaviour of a write: the written key is read back, and the others as before.
pub record TrieLaws (t : TrieLib) : Type 1 where
  pub get-insert :
      (db db' : t.Db) (k v j : Bytes)
      → t.insert db k v ≡ some db'
      → t.get db' j ≡ (if bytes_eq k j then some (some v) else t.get db j)
  pub get-remove :
      (db db' : t.Db) (k j : Bytes)
      → t.remove db k ≡ some db'
      → t.get db' j ≡ (if bytes_eq k j then some none else t.get db j)

-- The root depends on the entries alone: a proof and a full state of one root are led to one root by
-- the same write.
pub record RootLaws (t : TrieLib) : Type 1 where
  pub root-insert :
      (db db' full full' : t.Db) (k v : Bytes)
      → t.root db ≡ t.root full
      → t.insert db k v ≡ some db'
      → t.insert full k v ≡ some full'
      → t.root db' ≡ t.root full'
  pub root-remove :
      (db db' full full' : t.Db) (k : Bytes)
      → t.root db ≡ t.root full
      → t.remove db k ≡ some db'
      → t.remove full k ≡ some full'
      → t.root db' ≡ t.root full'

-- ===== src/Store/MemStore.antt =====
-- store/memStore.go: a Go map from keys to values.
use uq.Prelude.{
  Bytes, codes, bytes_eq, Option, none, some, ◌≡◌, refl, if◌then◌else◌, arith, [], Dict, lookup,
  without, insert, lookup-without, lookup-insert,
}
use uq.Utils.Errors.{Result, ok, err}
use uq.Store.Interface.{Storage, Laws, Reliable}

-- The struct with its map `db`.
pub record MemStore : Type 0 where
  db : Dict Bytes

abbrev err_not_existed : Bytes
err_not_existed = codes "Data Not Existed"

unfoldable pub new_mem_store : MemStore
new_mem_store = record { db = [] }

unfoldable pub set : Bytes → Bytes → MemStore → Result Bytes (Unit {0}) × MemStore
unfolding insert
set k v m = (ok tt, record { db = insert k v m.db })

found : Option Bytes → Result Bytes Bytes
found none = err err_not_existed
found (some v) = ok v

unfoldable pub get : Bytes → MemStore → Result Bytes Bytes
unfolding found lookup
get k m = found (lookup k m.db)

delete : Bytes → MemStore → Option Bytes → Result Bytes (Unit {0}) × MemStore
delete k m none = (err err_not_existed, m)
delete k m (some v) = (ok tt, record { db = without k m.db })

unfoldable pub del : Bytes → MemStore → Result Bytes (Unit {0}) × MemStore
unfolding delete lookup without
del k m = delete k m (lookup k m.db)

-- Close drops the map; a read then finds nothing. The model takes the nil map for an empty one: a write
-- after Close, which panics in Go, is not modelled.
unfoldable pub close : MemStore → MemStore
close m = record { db = [] }

-- MemStore as a storage of the queue.
abbrev pub mem_storage : Storage MemStore
mem_storage = record { set = set; get = get; del = del; close = close }

get_after_set :
    (k j v : Bytes) (m : MemStore) → get j (set k v m).1 ≡ (if bytes_eq j k then ok v else get j m)
unfolding get set
get_after_set k j v m = ground (arith, lookup-insert k j v m.db)

get_after_del :
    (k j : Bytes) (m : MemStore)
    → (del k m).0 ≡ ok tt
    → get j (del k m).1 ≡ (if bytes_eq j k then err err_not_existed else get j m)
unfolding get del
get_after_del k j m h = ground (arith, lookup-without k j m.db)

get_after_del_err :
    (k j e : Bytes) (m : MemStore) → (del k m).0 ≡ err e → get j (del k m).1 ≡ get j m
unfolding get del
get_after_del_err k j e m h = ground arith

set_ok : (k v : Bytes) (m : MemStore) → (set k v m).0 ≡ ok tt
unfolding set
set_ok k v m = refl

-- The in-memory storage keeps every promise that the queue relies on.
pub mem_storage-Laws : Laws mem_storage
mem_storage-Laws = record {
  not_found = err_not_existed;
  get-set = λ k j v s h. get_after_set k j v s;
  get-set_err = λ k j v e s h. absurd (cc (set_ok k v s));
  get-del = λ k j s h. get_after_del k j s h;
  get-del_err = λ k j e s h. get_after_del_err k j e s h;
}

del_ok : (k v : Bytes) (m : MemStore) → get k m ≡ ok v → (del k m).0 ≡ ok tt
unfolding get del
del_ok k v m h = ground arith

-- The in-memory storage never fails on its own.
pub mem_storage-Reliable : Reliable mem_storage
mem_storage-Reliable = record { set_ok = set_ok; del_ok = del_ok }

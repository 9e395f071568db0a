-- ===== src/Store/Interface.antt =====
-- store/storage.go: the interface through which the queue reads and writes its data.
use uq.Prelude.{Bytes, bytes_eq, ◌≡◌, if◌then◌else◌}
use uq.Utils.Errors.{Result, ok, err}

-- A value of `S` is the content of a storage. An error is the text of the Go error.
pub record Storage (S : Type 0) : Type 0 where
  pub set : Bytes → Bytes → S → Result Bytes (Unit {0}) × S
  pub get : Bytes → S → Result Bytes Bytes
  pub del : Bytes → S → Result Bytes (Unit {0}) × S
  pub close : S → S

-- What the queue relies on: a write is read back, a deleted key is not found, other keys keep their
-- values, and a call that fails changes nothing.
pub record Laws {S : Type 0} (st : Storage S) : Type 0 where
  pub not_found : Bytes
  pub get-set :
      (k j v : Bytes) (s : S)
      → (st.set k v s).0 ≡ ok tt
      → st.get j (st.set k v s).1 ≡ (if bytes_eq j k then ok v else st.get j s)
  pub get-set_err :
      (k j v e : Bytes) (s : S) → (st.set k v s).0 ≡ err e → st.get j (st.set k v s).1 ≡ st.get j s
  pub get-del :
      (k j : Bytes) (s : S)
      → (st.del k s).0 ≡ ok tt
      → st.get j (st.del k s).1 ≡ (if bytes_eq j k then err not_found else st.get j s)
  pub get-del_err :
      (k j e : Bytes) (s : S) → (st.del k s).0 ≡ err e → st.get j (st.del k s).1 ≡ st.get j s

-- A storage that does not fail on its own: a write succeeds, and so does the deletion of a key that
-- is there.
pub record Reliable {S : Type 0} (st : Storage S) : Type 0 where
  pub set_ok : (k v : Bytes) (s : S) → (st.set k v s).0 ≡ ok tt
  pub del_ok : (k v : Bytes) (s : S) → st.get k s ≡ ok v → (st.del k s).0 ≡ ok tt

-- ===== src/Main/Servers.antt =====
-- The etcd servers of the main program have a scheme, and none is lost.
use uq.Prelude.{
  ◌≡◌, refl, inl, inr, Bytes, List, [], ◌∷◌, ◌++◌, true, bytes_eq, Bool-cases, All, map,
}
use uq.Utils.Strings.{has_prefix}
use uq.Main.{Flags, split_comma_from, http_scheme, with_scheme, etcd_servers}

abbrev pub HasScheme : Bytes → Type 0
HasScheme s = has_prefix s http_scheme ≡ true

prefix_added : (s : Bytes) → HasScheme (http_scheme ++ s)
unfolding has_prefix
prefix_added s = refl

with_scheme-HasScheme : (s : Bytes) → HasScheme (with_scheme s)
unfolding with_scheme
with_scheme-HasScheme s = elim (Bool-cases (has_prefix s http_scheme)) [
  | inl e ↦ rw e e
  | inr e ↦ rw e (prefix_added s)
]

All-map : (xs : List Bytes) → All HasScheme (map with_scheme xs)
All-map [] = tt
All-map (x ∷ xs) = (with_scheme-HasScheme x, All-map xs)

-- Every server that is handed to the etcd client begins with "http://".
pub etcd_servers-HasScheme : (f : Flags) → All HasScheme (etcd_servers f)
unfolding etcd_servers
etcd_servers-HasScheme f = elim (Bool-cases (bytes_eq f.etcd [])) [
  | inl e ↦ rw e tt
  | inr e ↦ rw e (All-map (split_comma_from [] f.etcd))
]

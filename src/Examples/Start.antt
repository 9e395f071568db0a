-- ===== src/Examples/Start.antt =====
-- The main program with its default flags, over a system on which all goes well.
use uq.Prelude.{◌≡◌, refl, codes, ◌++◌, ◌∷◌, [], true, bytes_eq}
use uq.Main.{default_flags, Outside, etcd_servers, split_comma_from, with_scheme}
use uq.Utils.Strings.{has_prefix}

abbrev all_well : Outside
all_well = record {
  made_dir = true;
  opened_log = true;
  made_storage = true;
  made_queue = true;
  made_entry = true;
  made_admin = true;
  entry_listens = true;
  admin_listens = true;
  join_path = λ a b. a ++ (codes "/" ++ b);
  clean_path = λ p. p;
}

two_servers :
    etcd_servers (record default_flags { etcd = codes "a:1,http://b:2" })
    ≡ codes "http://a:1" ∷ codes "http://b:2" ∷ []
unfolding etcd_servers bytes_eq split_comma_from with_scheme has_prefix
two_servers = refl

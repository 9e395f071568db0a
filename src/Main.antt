-- ===== src/Main.antt =====
-- uq.go: the main program. What it asks of the operating system and of the other packages goes into
-- `Outside`; what it does with them is a list of effects, in order.
pub mod Closing
pub mod Servers
use uq.Prelude.{
  ℕ, Bytes, codes, List, [], ◌∷◌, ◌++◌, map, Bool, true, false, not, ◌==◌, bytes_eq, if◌then◌else◌,
  ℤ, pos,
}
use uq.Utils.Strings.{has_prefix}

-- The variables behind the flags.
pub record Flags : Type 0 where
  pub ip : Bytes
  pub host : Bytes
  pub port : ℤ
  pub admin_port : ℤ
  pub protocol : Bytes
  pub db : Bytes
  pub dir : Bytes
  pub log_file : Bytes
  pub etcd : Bytes
  pub cluster : Bytes

-- init
abbrev pub default_flags : Flags
default_flags = record {
  ip = codes "127.0.0.1";
  host = codes "0.0.0.0";
  port = pos 8808;
  admin_port = pos 8809;
  protocol = codes "redis";
  db = codes "goleveldb";
  dir = codes "./data";
  log_file = [];
  etcd = [];
  cluster = codes "uq";
}

unfoldable pub belong : Bytes → List Bytes → Bool
belong single [] = false
belong single (one ∷ team) = if bytes_eq single one then true else belong single team

-- checkArgs; the messages that it prints are left out.
unfoldable pub check_args : Flags → Bool
unfolding belong
check_args f =
    if not (belong f.db (codes "goleveldb" ∷ codes "memdb" ∷ []))
    then false
    else if not (belong f.protocol (codes "redis" ∷ codes "mc" ∷ codes "http" ∷ []))
    then false
    else true

-- strings.Split(s, ","): `part` is the part so far.
unfoldable pub split_comma_from : Bytes → Bytes → List Bytes
split_comma_from part [] = part ∷ []
split_comma_from part (c ∷ s) =
    let done = part ∷ split_comma_from [] s in
    let more = split_comma_from (part ++ c ∷ []) s in if c == b',' then done else more

abbrev pub http_scheme : Bytes
http_scheme = codes "http://"

unfoldable pub with_scheme : Bytes → Bytes
with_scheme server = if not (has_prefix server http_scheme) then http_scheme ++ server else server

unfoldable pub etcd_servers : Flags → List Bytes
unfolding split_comma_from with_scheme
etcd_servers f =
    if not (bytes_eq f.etcd []) then map with_scheme (split_comma_from [] f.etcd) else []

pub data Protocol : Type 0 where
  http mc redis : Protocol

-- What main does, as far as the other packages see it.
pub data Effect : Type 0 where
  opens_log : Bytes → Effect
  opens_level_store : Bytes → Effect
  opens_mem_store : Effect
  closes_storage : Effect
  makes_queue : Bytes → ℤ → List Bytes → Bytes → Effect
  closes_queue : Effect
  makes_entry : Protocol → Bytes → ℤ → Effect
  serves_entry : Effect
  stops_entry : Effect
  makes_admin : Bytes → ℤ → Effect
  serves_admin : Effect
  stops_admin : Effect
  panics : Effect

-- Which calls succeed, whether a server has opened its listener by the time that it is stopped, and the
-- path package.
pub record Outside : Type 0 where
  pub made_dir : Bool
  pub opened_log : Bool
  pub made_storage : Bool
  pub made_queue : Bool
  pub made_entry : Bool
  pub made_admin : Bool
  pub entry_listens : Bool
  pub admin_listens : Bool
  pub join_path : Bytes → Bytes → Bytes
  pub clean_path : Bytes → Bytes

-- What the select at the end finds first.
pub data Event : Type 0 where
  signalled entry_failed admin_failed : Event

-- Stop of the entrance: it stops the listener, which is nil until ListenAndServe has opened it, and then
-- closes the queue.
unfoldable pub stop_entry : Outside → List Effect
stop_entry o = stops_entry ∷ (if o.entry_listens then closes_queue ∷ [] else panics ∷ [])

-- The select.
unfoldable pub at_end : Outside → Event → List Effect
unfolding stop_entry
at_end o signalled = stops_admin ∷ (if o.admin_listens then stop_entry o else panics ∷ [])
at_end o entry_failed = closes_queue ∷ []
at_end o admin_failed = stop_entry o

-- From the goroutine of the entrance on. The order in which the two servers begin to serve is open.
unfoldable pub run_servers : Flags → Outside → Event → List Effect
unfolding at_end
run_servers f o event =
    serves_entry
    ∷ makes_admin f.host f.admin_port
    ∷ (if o.made_admin then serves_admin ∷ at_end o event else stop_entry o)

unfoldable pub start_entry : Protocol → Flags → Outside → Event → List Effect
unfolding run_servers
start_entry p f o event =
    makes_entry p f.host f.port
    ∷ (if o.made_entry then run_servers f o event else closes_queue ∷ [])

-- From the queue on.
unfoldable pub start_queue : Flags → Outside → Event → List Effect
unfolding start_entry etcd_servers
start_queue f o event =
    makes_queue f.ip f.port (etcd_servers f) f.cluster
    ∷ (if not o.made_queue
        then closes_storage ∷ []
        else if bytes_eq f.protocol (codes "http")
        then start_entry http f o event
        else if bytes_eq f.protocol (codes "mc")
        then start_entry mc f o event
        else if bytes_eq f.protocol (codes "redis")
        then start_entry redis f o event
        else [])

-- From the storage on.
unfoldable pub start_storage : Flags → Outside → Event → List Effect
unfolding start_queue
start_storage f o event =
    let rest = if o.made_storage then start_queue f o event else [] in
    if bytes_eq f.db (codes "goleveldb")
    then opens_level_store (o.clean_path (o.join_path f.dir (codes "uq.db"))) ∷ rest
    else if bytes_eq f.db (codes "memdb")
    then opens_mem_store ∷ rest
    else []

unfoldable pub main : Flags → Outside → Event → List Effect
unfolding check_args start_storage
main f o event =
    if not (check_args f)
    then []
    else if not o.made_dir
    then []
    else if bytes_eq f.log_file []
    then start_storage f o event
    else if not o.opened_log
    then []
    else opens_log (o.join_path f.dir (codes "uq.log")) ∷ start_storage f o event

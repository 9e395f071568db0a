-- ===== src/Main/Closing.antt =====
-- How often the main program closes the storage that it has opened, on every path.
use uq.Prelude.{ℕ, ◌+◌, List, [], ◌∷◌, Bool, false, not, ◌&&◌, ◌||◌, bytes_eq, if◌then◌else◌}
use uq.Main.{
  Flags, Outside, Event, signalled, entry_failed, admin_failed, Effect, closes_storage,
  closes_queue,
}

-- An effect that closes the storage: Close of the queue does.
abbrev pub closing : Effect → ℕ
closing closes_storage = 1
closing closes_queue = 1
closing _ = 0

abbrev pub closings : List Effect → ℕ
closings [] = 0
closings (e ∷ es) = closing e + closings es

-- Is there a storage?
abbrev pub has_storage : Flags → Outside → Bool
has_storage f o = o.made_dir && (bytes_eq f.log_file [] || o.opened_log) && o.made_storage

-- Is a server stopped that does not listen? Both are on a signal, and the entrance is when the admin
-- server cannot be made or fails.
abbrev pub stops_early : Outside → Event → Bool
stops_early o signalled = not (o.admin_listens && o.entry_listens)
stops_early o entry_failed = false
stops_early o admin_failed = not o.entry_listens

-- Does the program get as far as that?
abbrev pub stop_panics : Outside → Event → Bool
stop_panics o event =
    o.made_queue
    && o.made_entry
    && (if o.made_admin then stops_early o event else not o.entry_listens)

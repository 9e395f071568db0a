-- ===== src/Queue/LineData.antt =====
-- queue/uLine.go: what a line writes to the storage, its statistics, and how it is emptied and
-- removed. `topic` is `l.t.name`, and `tail` is `l.t.getTail()`.
use uq.Prelude.{ℕ, ◌+◌, ◌-◌, ◌%◌, Bytes, codes, [], ◌++◌, none, u64_mod, length}
use uq.Utils.Errors.{Result, ok, Error}
use uq.Queue.Line.{Line}
use uq.Queue.Deps.{Deps, World, Action, LineStore, internal, lift, ◌>>=◌, set_data, del_data}

abbrev pub key_line_recycle : Bytes
key_line_recycle = codes ":recycle"

-- The Stat of a line.
pub record LineStat : Type 0 where
  pub name : Bytes
  pub recycle : Bytes
  pub head : ℕ
  pub ihead : ℕ
  pub tail : ℕ
  pub count : ℕ

unfoldable pub gen_line_store : Line → LineStore
gen_line_store l = record { head = l.head; ihead = l.ihead; inflights = l.inflight }

unfoldable pub line_store_key : Bytes → Bytes → Bytes
line_store_key topic name = topic ++ (codes "/" ++ name)

module _ {S : Type 0} (deps : Deps S) where
  unfoldable pub export_recycle : Line → Action S (Unit {0})
  unfolding set_data
  export_recycle l = set_data deps l.recycle_key (deps.duration_string l.recycle)

  unfoldable pub remove_recycle_data : Line → Action S (Unit {0})
  unfolding del_data
  remove_recycle_data l = del_data deps l.recycle_key

  unfoldable pub export_line : Bytes → Line → Action S (Unit {0})
  unfolding set_data line_store_key gen_line_store
  export_line topic l = do
    buf ← lift (internal (deps.marshal_line (gen_line_store l)))
    set_data deps (line_store_key topic l.name) buf

  unfoldable pub remove_line_data : Bytes → Line → Action S (Unit {0})
  unfolding del_data line_store_key
  remove_line_data topic l = del_data deps (line_store_key topic l.name)

  -- The count is computed in uint64.
  unfoldable pub line_stat : Bytes → ℕ → Line → LineStat
  line_stat topic tail l = record {
    name = topic ++ (codes "/" ++ l.name);
    recycle = deps.duration_string l.recycle;
    head = l.head;
    ihead = l.ihead;
    tail = tail;
    count = (length l.inflight + tail + u64_mod - l.head) % u64_mod;
  }

  -- empty: every message of the topic counts as read and confirmed.
  unfoldable pub emptied : ℕ → Line → Line
  emptied tail l = record l { inflight = []; imap = λ i. none; ihead = tail; head = tail }

  unfoldable pub empty : Bytes → ℕ → Line → World S → Result Error (Unit {0}) × Line × World S
  unfolding emptied export_line
  empty topic tail l w =
      let l' = emptied tail l in let (r, w') = export_line topic l' w in (r, l', w')

  -- remove: errors are logged only.
  unfoldable pub remove : Bytes → Line → Action S (Unit {0})
  unfolding remove_line_data remove_recycle_data
  remove topic l w =
      let (_, w') = remove_line_data topic l w in
      let (_, w'') = remove_recycle_data l w' in (ok tt, w'')

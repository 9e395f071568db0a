-- ===== src/Queue/Topic/Clean.antt =====
-- queue/uTopic.go: clean, the loop that deletes the messages that no line needs any more, and the
-- ticks of backgroundClean.
use uq.Prelude.{ℕ, zero, suc, ◌-◌, Bool, true, false, ltb, if◌then◌else◌, inc64}
use uq.Utils.Errors.{ok, err}
use uq.Queue.Deps.{Deps, World, del_data}
use uq.Queue.Topic.{Topic, get_end, export_head, message_key}
use uq.Queue.Topic.Admin.{export_lines}

-- What a round of the loop finds: the quit channel closed, the time used up, or neither.
pub data Poll : Type 0 where
  quitting : Poll
  late : Poll
  clear : Poll

module _ {S : Type 0} (deps : Deps S) where
  -- The rounds of clean up to `ending`; `polls` is indexed by the rounds left. It returns whether the
  -- quit channel was found closed.
  unfoldable pub clean_loop : ℕ → (ℕ → Poll) → ℕ → Topic → World S → Bool × Topic × World S
  clean_loop zero polls ending t w = (false, t, w)
  clean_loop (suc fuel) polls ending t w = elim (ltb t.head ending) [
    | false ↦ (false, t, w)
    | true ↦ elim (polls fuel) [
      | quitting ↦ (true, t, w)
      | late ↦ (false, t, w)
      | clear ↦
          let (r, w') = del_data deps (message_key t.name t.head) w in
          elim r [
            | err e ↦ (false, t, w')
            | ok _ ↦
                let t' : Topic = record t { head = inc64 t.head } in
                let (r', w'') = export_head deps t' w' in
                elim r' [ err e ↦ (false, t', w'') | ok _ ↦ clean_loop fuel polls ending t' w'' ]
          ]
    ]
  ]

  -- clean: a round deletes one message, so there are at most `ending - head` of them.
  unfoldable pub clean : (ℕ → Poll) → Topic → World S → Bool × Topic × World S
  clean polls t w = clean_loop (get_end t - t.head) polls (get_end t) t w

  -- The two ticks of backgroundClean.
  unfoldable pub backup_tick : Topic → World S → World S
  backup_tick = export_lines deps

  unfoldable pub clean_tick : (ℕ → Poll) → Topic → World S → Topic × World S
  clean_tick polls t w =
      if t.persist then (t, w) else (let (_, t', w') = clean polls t w in (t', w'))

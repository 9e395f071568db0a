-- ===== src/Queue/Topic/Removal.antt =====
-- removeLine keeps a topic sound.
use uq.Prelude.{
  ◌≡◌, refl, subst, ◌∙◌, inl, inr, Bytes, some, arith, lookup, lookup-without, without,
  if◌then◌else◌, Bool, Bool-cases, Option-cases,
}
use uq.Utils.Errors.{Result, Error, Result-cases}
use uq.Store.Interface.{Laws}
use uq.Queue.Line.{Line}
use uq.Queue.Deps.{Deps, World, unregister_line}
use uq.Queue.Deps.DataLaws.{get_data-del_data_ne, get_data-unregister_line}
use uq.Queue.LineData.{remove, remove_line_data, remove_recycle_data, line_store_key}
use uq.Queue.Topic.{Topic, Outcome, returns, blocks, message_key, export_topic}
use uq.Queue.Topic.Admin.{recycle_key, remove_line}
use uq.Queue.Topic.Keys.{message_key-ne-slash}
use uq.Queue.Topic.Sound.{IsSound}
use uq.Queue.Topic.Keep.{KeepsMessages, KeepsMessages-IsSound, export_topic_keeps}

-- The line has the recycle key that createLine and loadLine give it.
abbrev pub OwnKey : Topic → Line → Type 0
OwnKey t l = l.recycle_key ≡ recycle_key t.name l.name

module _ {S : Type 0} (deps : Deps S) (laws : Laws deps.storage) where
  abbrev left_out : Bytes → Topic → Topic
  left_out name t = record t { lines = without name t.lines }

  left_out-IsSound :
      (name : Bytes) (t : Topic) (w : World S) → IsSound deps t w → IsSound deps (left_out name t) w
  left_out-IsSound name t w h = record {
    head_le = h.head_le;
    tail_lt = h.tail_lt;
    head_key = h.head_key;
    tail_key = h.tail_key;
    served = λ j l e.
        let old = h.served j l (ground (arith, e, lookup-without name j t.lines)) in
        record { valid = old.valid; needs = old.needs };
    stored = h.stored;
  }

  remove_keeps :
      (t : Topic) (l : Line) (w : World S)
      → OwnKey t l
      → KeepsMessages deps t.name w (remove deps t.name l w).1
  unfolding remove remove_line_data remove_recycle_data line_store_key recycle_key
  remove_keeps t l w k i =
      get_data-del_data_ne deps laws l.recycle_key (message_key t.name i) _
        (rw k (message_key-ne-slash t.name _ i))
      ∙ get_data-del_data_ne deps laws (line_store_key t.name l.name) (message_key t.name i) w
          (message_key-ne-slash t.name l.name i)

  abbrev Returned : Outcome (Result Error (Unit {0}) × Topic × World S) → Type 0
  Returned (returns (r, t, w)) = IsSound deps t w
  Returned blocks = Unit {0}

  removed-IsSound :
      (name : Bytes) (from_etcd : Bool) (t : Topic) (w : World S)
      → IsSound deps t w
      → ((l : Line) → lookup name t.lines ≡ some l → OwnKey t l)
      → Returned (remove_line deps name from_etcd t w)
  unfolding remove_line
  removed-IsSound name from_etcd t w h own = elim (Option-cases (lookup name t.lines)) [
    | inl e ↦ rw (e, remove_line) h
    | inr (l, e) ↦
        let t₁ = left_out name t in
        let w₁ = (export_topic deps t₁ w).1 in
        let sound =
          KeepsMessages-IsSound deps t₁ w w₁ (export_topic_keeps deps laws t₁ w)
            (left_out-IsSound name t w h) in
        elim (Result-cases (export_topic deps t₁ w).0) [
          | inr (x, f) ↦ rw (e, remove_line) (rw f tt)
          | inl (u, f) ↦
              let told : KeepsMessages deps t.name w₁
                  (if from_etcd then w₁ else unregister_line deps t.name name w₁) =
                λ i. elim (Bool-cases from_etcd) [
                  | inl b ↦ rw b refl
                  | inr b ↦
                      rw b (get_data-unregister_line deps t.name name (message_key t.name i) w₁)
                ] in
              rw (e, remove_line)
                (rw f (
                  KeepsMessages-IsSound deps t₁ _ _ (λ i. remove_keeps t l _ (own l e) i ∙ told i)
                    sound))
        ]
  ]

  -- removeLine that returns, with an error or not, leaves the topic sound.
  pub remove_line-IsSound :
      (name : Bytes) (from_etcd : Bool) (t : Topic) (w : World S) (r : Result Error (Unit {0}))
      (t' : Topic) (w' : World S)
      → remove_line deps name from_etcd t w ≡ returns (r, t', w')
      → ((l : Line) → lookup name t.lines ≡ some l → OwnKey t l)
      → IsSound deps t w
      → IsSound deps t' w'
  remove_line-IsSound name from_etcd t w r t' w' e own h =
      subst Returned e (removed-IsSound name from_etcd t w h own)

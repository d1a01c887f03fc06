-- ===== src/Avr/EventQueue/Refine.antt =====
-- The event queue against a first-in first-out list of at most 15 events.
use ember_firmware.Prelude.{
  ℕ, suc, ◌+◌, ◌-◌, ◌%◌, ◌<◌, ◌≡◌, refl, ◌≢◌, ◌↔◌, ap, ap₂, true, List, [], ◌∷◌, ◌++◌, arith,
  length, length-set, get_or, set, get_or-set_self, get_or-set_ne, ltb, if◌then◌else◌,
}
use ember_firmware.Prelude.Window.{window, length-window, window_of_ne_zero, window-write}
use ember_firmware.Avr.Codes.{
  Event, no_event, EventData, Status, status_success, status_event_queue_full,
}
use ember_firmware.Avr.EventQueue.{
  EventQueue, event_queue_length, zero_data, construct, add, remove, clear, is_empty,
}

-- The indices are in range, and the arrays are as long as declared.
pub record IsValid (q : EventQueue) : Type 0 where
  pub head_lt : q.head < event_queue_length
  pub tail_lt : q.tail < event_queue_length
  pub datas : length q.event_data_buffer ≡ event_queue_length
  pub codes : length q.event_code_buffer ≡ event_queue_length

abbrev pub size : EventQueue → ℕ
size q = (q.head + event_queue_length - q.tail) % event_queue_length

abbrev pub cell : EventQueue → ℕ → Event × EventData
cell q i = (get_or q.event_code_buffer i no_event, get_or q.event_data_buffer i zero_data)

-- The queued events, oldest first.
abbrev pub contents : EventQueue → List (Event × EventData)
contents q = window (cell q) event_queue_length q.tail (size q)

pub length-contents : (q : EventQueue) → length (contents q) ≡ size q
length-contents q = length-window (cell q) event_queue_length q.tail (size q)

-- The specification of `Add`: at most 15 events wait.
unfoldable pub enqueue :
    List (Event × EventData) → Event → EventData → Status × List (Event × EventData)
enqueue es code d =
    if ltb (length es) 15
    then (status_success, es ++ ((code, d) ∷ []))
    else (status_event_queue_full, es)

-- The specification of `Remove`.
unfoldable pub dequeue :
    List (Event × EventData) → Event → EventData → Event × EventData × List (Event × EventData)
dequeue [] code d = (code, d, [])
dequeue ((code', d') ∷ es) code d = (code', d', es)

-- `Add` keeps the invariant.
pub add-IsValid :
    (q : EventQueue) (code : Event) (d : EventData) → IsValid q → IsValid (add q code d).1
unfolding add
add-IsValid q code d v =
    ground
      (arith, length-set q.event_code_buffer q.head code, length-set q.event_data_buffer q.head d)

-- `Remove` keeps the invariant.
pub remove-IsValid :
    (q : EventQueue) (code : Event) (d : EventData) → IsValid q → IsValid (remove q code d).2
unfolding remove
remove-IsValid q code d v = ground arith

pub clear-IsValid : (q : EventQueue) → IsValid q → IsValid (clear q)
unfolding clear
clear-IsValid q v = ground arith

pub construct-IsValid :
    (datas : List EventData) (codes : List Event)
    → length datas ≡ event_queue_length
    → length codes ≡ event_queue_length
    → IsValid (construct datas codes)
unfolding construct
construct-IsValid datas codes hd hc = ground arith

abbrev written : EventQueue → Event → EventData → EventQueue
written q code d = record q {
  event_code_buffer = set q.event_code_buffer q.head code;
  event_data_buffer = set q.event_data_buffer q.head d;
  head = (q.head + 1) % event_queue_length;
}

contents-written :
    (q : EventQueue) (code : Event) (d : EventData)
    → IsValid q
    → (q.head + 1) % event_queue_length ≢ q.tail
    → contents (written q code d) ≡ contents q ++ ((code, d) ∷ [])
contents-written q code d v room = rw grows (
    window-write (cell q) (cell (written q code d)) event_queue_length q.tail (size q) q.head
      (code, d) v.tail_lt (omega arith) (omega arith) others
      (ap₂ (λ c x. (c, x)) (get_or-set_self q.event_code_buffer q.head code no_event (omega arith))
        (get_or-set_self q.event_data_buffer q.head d zero_data (omega arith))))
  where
    grows : size (written q code d) ≡ suc (size q)
    grows = omega arith

    others : (j : ℕ) → q.head ≢ j → cell (written q code d) j ≡ cell q j
    others j ne =
        ap₂ (λ c x. (c, x)) (get_or-set_ne q.event_code_buffer q.head j code no_event ne)
          (get_or-set_ne q.event_data_buffer q.head j d zero_data ne)

-- `Add` returns the status of the specification and leaves its queue.
pub add_refines :
    (q : EventQueue) (code : Event) (d : EventData)
    → IsValid q
    → let (s, q') = add q code d in (s, contents q') ≡ enqueue (contents q) code d
unfolding add enqueue
add_refines q code d v = ground (arith, length-contents q, contents-written q code d v)

-- `Remove` returns the oldest event and leaves the others.
pub remove_refines :
    (q : EventQueue) (code : Event) (d : EventData)
    → IsValid q
    → let (c, x, q') = remove q code d in (c, x, contents q') ≡ dequeue (contents q) code d
unfolding remove dequeue
remove_refines q code d v =
    ground (arith, window_of_ne_zero (cell q) event_queue_length q.tail (size q))

-- `IsEmpty` tells whether any event waits.
pub is_empty_iff : (q : EventQueue) → IsValid q → (is_empty q ≡ true) ↔ (contents q ≡ [])
unfolding is_empty
is_empty_iff q v =
    (λ e. rw (none_wait (ground arith)), λ e. ground (arith, length-contents q, ap length e))
  where
    none_wait : q.head ≡ q.tail → size q ≡ 0
    none_wait h = omega arith

-- `Clear` drops every event.
pub contents-clear : (q : EventQueue) → contents (clear q) ≡ []
unfolding clear
contents-clear q = refl

pub data Op : Type 0 where
  adds : Event → EventData → Op
  removes : Op

-- What a caller sees of a call, the variables of `Remove` being zero before it.
pub data Reply : Type 0 where
  added : Status → Reply
  removed : Event → EventData → Reply

unfoldable pub run : EventQueue → List Op → List Reply
run q [] = []
run q (adds code d ∷ ops) = let (s, q') = add q code d in added s ∷ run q' ops
run q (removes ∷ ops) = let (c, d, q') = remove q no_event zero_data in removed c d ∷ run q' ops

unfoldable pub run_spec : List (Event × EventData) → List Op → List Reply
unfolding enqueue dequeue
run_spec es [] = []
run_spec es (adds code d ∷ ops) = let (s, es') = enqueue es code d in added s ∷ run_spec es' ops
run_spec es (removes ∷ ops) =
    let (c, d, es') = dequeue es no_event zero_data in removed c d ∷ run_spec es' ops

-- No sequence of Add and Remove calls tells a well-formed event queue from the bounded list of
-- the events it holds.
pub run_refines :
    (ops : List Op) (q : EventQueue) → IsValid q → run q ops ≡ run_spec (contents q) ops
unfolding run run_spec
run_refines [] q v = refl
run_refines (adds code d ∷ ops) q v =
    rw (run_refines ops (add q code d).1 (add-IsValid q code d v), ← add_refines q code d v)
run_refines (removes ∷ ops) q v = rw (
  run_refines ops (remove q no_event zero_data).2 (remove-IsValid q no_event zero_data v),
  ← remove_refines q no_event zero_data v,
)

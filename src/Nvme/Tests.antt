-- ===== src/Nvme/Tests.antt =====
-- The theorems at small queues.
use bincows.Base.{
  ◌==◌, ℕ, ◌+◌, ◌*◌, ◌≡◌, refl, [], ◌∷◌, ◌++◌, ok, panic, arith, if◌then◌else◌, ltb, Outcome, ◌<◌,
  ◌≤◌, ◌%◌, ◌/◌, Bool-cases, inl, inr, true,
}
use bincows.Nvme.{
  QueuePair, Device, SubEntry, Command, sub_entry, update_queues, async_command, handle_entries,
  handle_queue, next_index, queue_full, queue_empty, queue_produce, queue_consume, cq_tail_phase,
  handle_entry, finish_read,
}
use bincows.Nvme.Pending.{IsQueue}
use bincows.Nvme.Completions.{Reported, IsPair, Synced, update_queues-Synced}
use bincows.Nvme.Commands.{queued, async_command-queued}
use bincows.Nvme.Draining.{asked, targets, is_async_read, read_index}
use bincows.Nvme.Handling.{Handled, handle_queue-Handled}

abbrev command : Command
command = record {
  opcode = 2;
  cmdid = 7;
  nsid = 1;
  prp0 = 0;
  prp1 = 0;
  cdw10 = 8;
  cdw11 = 0;
  cdw12 = 0;
}

abbrev no_entry : SubEntry
no_entry = record { cmd = 0; nsid = 0; prp0 = 0; prp1 = 0; cdw10 = 0; cdw11 = 0; cdw12 = 0 }

-- Three commands are out. The controller has completed six in all, the driver knows of four.
abbrev pair : QueuePair
pair = record {
  sq = record { size = 4; element_size = 64; head = 0; tail = 3; id = 1 };
  cq = record { size = 4; element_size = 16; head = 0; tail = 0; id = 1 };
  completion_counter = 4;
  submitted = λ _. no_entry;
  completed = λ i. record { cmd_id = 7; phase = if ltb i 2 then 0 else 1; status = i };
}

abbrev device : Device
device = record {
  pair = pair;
  read_queue = λ _. record { target_buffer = 0; size = 0 };
  prps = λ _. 0;
  copies = [];
  doorbells = [];
}

abbrev roomy : Device
roomy = record device { pair = record pair { sq = record (pair.sq) { head = 1 } } }

-- The first of two entries in the completion queue has a status.
abbrev failed : Device
failed = record device { pair = record pair { cq = record (pair.cq) { head = 1; tail = 3 } } }

pair-IsPair : IsPair pair
pair-IsPair = omega arith

-- Entries 4 and 5 stand in slots 0 and 1, in the second time round.
fresh_entries : (j : ℕ) → 4 ≤ j → j < 6 → (pair.completed (j % 4)).phase ≡ (j / 4 + 1) % 2
fresh_entries j le lt = ground arith

update_queues-Synced_example : (p' : QueuePair) × (update_queues 5 pair ≡ ok p') × Synced pair 6 p'
update_queues-Synced_example =
    update_queues-Synced 5 6 pair pair-IsPair (record { fresh = fresh_entries; stale = refl })
      (omega arith) (omega arith) (omega arith) (omega arith) (omega arith)

async_command-queued_example :
    (d' : Device) × (async_command command roomy ≡ ok d')
    × IsQueue d'.pair.sq
    × (queued d'.pair ≡ queued roomy.pair ++ (sub_entry command ∷ []))
    × (d'.doorbells ≡ (2 * 1, d'.pair.sq.tail) ∷ [])
    × (d'.pair.cq ≡ pair.cq)
async_command-queued_example = async_command-queued command roomy (omega arith) (omega arith)

-- The handler reports both completions and stops at the first error.
handle : Outcome Device
unfolding handle_queue update_queues handle_entries handle_entry finish_read next_index queue_full
    queue_empty queue_produce queue_consume cq_tail_phase
handle = handle_queue (record device {
  pair = record pair {
    completed = λ i. record { cmd_id = 7; phase = if ltb i 2 then 0 else 1; status = 0 };
  };
})

handle_rings : (handle ≡ panic) → ⊥
unfolding handle
handle_rings e = cc

-- The first of the two new completions is that of an asynchronous read.
abbrev reading : Device
reading = record device {
  pair = record pair {
    completed = λ i. record {
      cmd_id = if i == 0 then 0x1002 else 7;
      phase = if ltb i 2 then 0 else 1;
      status = 0;
    };
  };
  read_queue = λ _. record { target_buffer = 0x8000; size = 512 };
  prps = λ i. 0x1000 * i;
}

reading-IsPair : IsPair reading.pair
reading-IsPair = omega arith

reading-Reported : Reported reading.pair 6
reading-Reported = record { fresh = fresh_entries; stale = refl }

reading_in :
    (j : ℕ)
    → is_async_read (reading.pair.completed ((4 + j) % 4)) ≡ true
    → read_index (reading.pair.completed ((4 + j) % 4)) < 64
reading_in j e = elim (Bool-cases (((4 + j) % 4) == 0)) [
  | inl here ↦ rw here (omega arith)
  | inr on ↦ rw on (omega arith)
]

handle_queue-Handled_example : (d' : Device) × (handle_queue reading ≡ ok d') × Handled reading 2 d'
handle_queue-Handled_example =
    handle_queue-Handled 2 reading reading-IsPair refl reading-Reported (omega arith) (omega arith)
      (omega arith)
      (λ j lt. record {
        success = refl;
        in_array = λ e. reading_in j e;
        sized = λ _ e. omega (arith, e);
      })

asks : asked reading (targets reading) 4 2 [] ≡ (0x8000, 0x2000, 512) ∷ []
unfolding asked
asks = refl

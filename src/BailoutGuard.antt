-- ===== src/BailoutGuard.antt =====
-- src/zend/bailout_guard.rs: values that are dropped although a bailout skips their frames. A value
-- is known by the address of its box; boxes get fresh addresses. The model follows which values are
-- dropped and which are handed out, and in what order.
pub mod Counts
pub mod Once
pub mod Hazards
use ext_php_rs.Prelude.{
  ℕ, zero, suc, ◌+◌, Bool, true, false, Option, none, some, [], ◌∷◌, ◌++◌, List, ltb, if◌then◌else◌,
  length, get_elem?, set, remove_at,
}

-- `struct BailoutGuard`
pub record BailoutGuard : Type 0 where
  pub value : ℕ
  pub index : ℕ

-- The thread's `CLEANUP_STACK`, an entry being the address that its closure drops and whether it is
-- active; the next free address; the addresses dropped so far, and those whose value was moved out.
pub record World : Type 0 where
  pub next : ℕ
  pub stack : List (ℕ × Bool)
  pub dropped : List ℕ
  pub taken : List ℕ

unfoldable pub new : World → BailoutGuard × World
new w = (
  record { value = w.next; index = length w.stack },
  record w { next = w.next + 1; stack = w.stack ++ (w.next, true) ∷ [] },
)

-- `stack[i].1 = false`
abbrev pub deactivate : List (ℕ × Bool) → ℕ → List (ℕ × Bool)
deactivate [] i = []
deactivate ((p, active) ∷ s) zero = (p, false) ∷ s
deactivate ((p, active) ∷ s) (suc i) = (p, active) ∷ deactivate s i

-- The guarded write that `into_inner` and `drop` share.
unfoldable pub silence : BailoutGuard → World → World
silence g w =
    if ltb g.index (length w.stack) then record w { stack = deactivate w.stack g.index } else w

-- The value leaves its box and `forget` keeps `drop` from running.
unfoldable pub into_inner : BailoutGuard → World → World
unfolding silence
into_inner g w = let w' = silence g w in record w' { taken = w'.taken ++ g.value ∷ [] }

unfoldable pub drop : BailoutGuard → World → World
unfolding silence
drop g w = let w' = silence g w in record w' { dropped = w'.dropped ++ g.value ∷ [] }

-- The addresses that `drain(..).rev()` drops, the last entry first.
unfoldable pub cleanups : List (ℕ × Bool) → List ℕ
cleanups [] = []
cleanups ((p, active) ∷ s) = cleanups s ++ (if active then p ∷ [] else [])

unfoldable pub run_bailout_cleanups : World → World
unfolding cleanups
run_bailout_cleanups w = record w { stack = []; dropped = w.dropped ++ cleanups w.stack }

-- A thread at work: the world, and the guards that its frames own.
pub record Thread : Type 0 where
  pub world : World
  pub guards : List BailoutGuard

-- What can happen. A guard is chosen by its place among the owned ones. A bailout is caught by the
-- generated handler, which runs the cleanups and triggers it again: no frame that owns a guard goes on.
pub data Event : Type 0 where
  make : Event
  drop_guard : ℕ → Event
  take_inner : ℕ → Event
  bail_out : Event

abbrev pub use_guard : (BailoutGuard → World → World) → ℕ → Option BailoutGuard → Thread → Thread
use_guard f k none t = t
use_guard f k (some g) t = record { world = f g t.world; guards = remove_at t.guards k }

unfoldable pub step : Event → Thread → Thread
unfolding new
step make t = let (g, w) = new t.world in record { world = w; guards = g ∷ t.guards }
step (drop_guard k) t = use_guard drop k (get_elem? t.guards k) t
step (take_inner k) t = use_guard into_inner k (get_elem? t.guards k) t
step bail_out t = record { world = run_bailout_cleanups t.world; guards = [] }

unfoldable pub run : List Event → Thread → Thread
run [] t = t
run (e ∷ es) t = run es (step e t)

abbrev pub start : Thread
start = record { world = record { next = 0; stack = []; dropped = []; taken = [] }; guards = [] }

-- ===== src/Input/Lock.antt =====
-- The lock of src/input/input.cpp, which hides the select, start and home buttons.
use passinglink.Common.{
  ℕ, Bool, true, false, not, ◌&&◌, Option, none, some, [], ◌∷◌, ◌++◌, if◌then◌else◌, to_bit, ◌≡◌,
  arith,
}
use passinglink.Input.Types.{Input, Board, Effect, display_set_locked}

-- A call that leaves the input code.
abbrev pub call : Effect → Input → Input
call e s = record s { effects = s.effects ++ (e ∷ []) }

abbrev same_bool : Bool → Bool → Bool
same_bool true b = b
same_bool false b = not b

-- `return input_locked;` converts the flag to a tick.
unfoldable pub input_get_lock_tick : Input → Option ℕ
input_get_lock_tick s = if s.input_locked then some (to_bit s.input_locked) else none

unfoldable pub input_set_locked : Board → Bool → ℕ → Input → Input
input_set_locked b locked tick s =
    if b.has_display && not (same_bool locked s.input_locked)
    then record (call (display_set_locked locked) s) {
      input_lock_tick = tick;
      input_locked = locked;
    }
    else record s { input_locked = locked }

-- Whether the input is locked is reported as it was set last; the tick that is reported with it is
-- 1, whenever the lock was set.
pub lock_tick-set_locked :
    (b : Board) (locked : Bool) (tick : ℕ) (s : Input)
    → input_get_lock_tick (input_set_locked b locked tick s) ≡ (if locked then some 1 else none)
unfolding input_get_lock_tick input_set_locked
lock_tick-set_locked b locked tick s = ground arith

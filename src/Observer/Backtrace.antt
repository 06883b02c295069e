-- ===== src/Observer/Backtrace.antt =====
-- The backtrace of src/zend/error_observer.rs, which src/zend/exception_observer.rs repeats. The chain
-- of `prev_execute_data` is the list of its frames, the current one first.
use ext_php_rs.Prelude.{
  ℕ, ◌%◌, ◌^◌, Option, none, some, List, [], ◌∷◌, ◌++◌, Bytes, map, ◌==◌, ◌≡◌, refl, sym, ap,
  if◌then◌else◌, append_assoc, append-nil,
}
use ext_php_rs.Observer.{
  zend_string_to_str, class_text, Func, Opline, ExecuteData, zend_internal_function,
}

pub record BacktraceFrame : Type 0 where
  pub function : Option Bytes
  pub class : Option Bytes
  pub file : Option Bytes
  pub line : ℕ

-- The line of an internal function is the pointer to its opcode as a `u32`.
abbrev pub pointer_line : Option Opline → ℕ
pointer_line none = 0
pointer_line (some op) = op.address % 2 ^ 32

-- The line of a function of a script: that of the current opcode, or where the function starts.
abbrev pub script_line : ℕ → Option Opline → ℕ
script_line start none = start
script_line start (some op) = op.lineno

unfoldable pub frame_of : Option Func → Option Opline → BacktraceFrame
unfolding zend_string_to_str class_text
frame_of none opline = record { function = none; class = none; file = none; line = 0 }
frame_of (some func) opline =
    let is_internal = func.type_ == zend_internal_function in
    record {
      function = zend_string_to_str func.function_name;
      class = class_text func.scope;
      file = if is_internal then none else zend_string_to_str func.filename;
      line = if is_internal then pointer_line opline else script_line func.line_start opline;
    }

unfoldable pub from_execute_data : Option ExecuteData → Option BacktraceFrame
unfolding frame_of
from_execute_data none = none
from_execute_data (some ex) = some (frame_of ex.func ex.opline)

-- `frames.push(frame)` under `if let Some`.
abbrev pub pushed : List BacktraceFrame → Option BacktraceFrame → List BacktraceFrame
pushed frames none = frames
pushed frames (some frame) = frames ++ frame ∷ []

unfoldable pub collect_frames : List BacktraceFrame → List ExecuteData → List BacktraceFrame
unfolding from_execute_data
collect_frames frames [] = frames
collect_frames frames (ex ∷ prev) =
    collect_frames (pushed frames (from_execute_data (some ex))) prev

abbrev pub some_frames : List BacktraceFrame → Option (List BacktraceFrame)
some_frames [] = none
some_frames (f ∷ fs) = some (f ∷ fs)

-- The chain of the executor globals, if there are such.
unfoldable pub backtrace : Option (List ExecuteData) → Option (List BacktraceFrame)
unfolding collect_frames
backtrace none = none
backtrace (some chain) = some_frames (collect_frames [] chain)

abbrev pub frame : ExecuteData → BacktraceFrame
frame ex = frame_of ex.func ex.opline

collect_frames-map :
    (frames : List BacktraceFrame) (chain : List ExecuteData)
    → collect_frames frames chain ≡ frames ++ map frame chain
unfolding collect_frames from_execute_data
collect_frames-map frames [] = sym (append-nil frames)
collect_frames-map frames (ex ∷ prev) =
    rw (collect_frames-map (frames ++ frame ex ∷ []) prev)
      (append_assoc frames (frame ex ∷ []) (map frame prev))

-- A backtrace has one frame for each call on the stack, the innermost first, and there is none
-- exactly when nothing runs.
pub backtrace-map :
    (chain : List ExecuteData) → backtrace (some chain) ≡ some_frames (map frame chain)
unfolding backtrace
backtrace-map chain = ap some_frames (collect_frames-map [] chain)

-- The line of a frame of an internal function is the low half of an address, if PHP left one there.
pub internal_line :
    (func : Func) (op : Opline)
    → func.type_ ≡ zend_internal_function
    → (frame_of (some func) (some op)).line ≡ op.address % 2 ^ 32
unfolding frame_of
internal_line func op h = rw h refl

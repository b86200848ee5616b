-- ===== src/Cpu/Pool.antt =====
-- src/enclave_proc/cpu_info.rs: the lines of the CPU pool file, "id1-id2,id3,id4-id5".
use aws_nitro_enclaves_cli.Common.{
  ℕ, zero, suc, ◌+◌, ◌-◌, ◌^◌, ◌<◌, ◌≡◌, refl, ap, ◌∙◌, inl, Option, none, some, List, [], ◌∷◌,
  ◌++◌, arith, if◌then◌else◌, All, All-append,
}
use mathlib.Core.List.{append-nil, append_assoc}
use aws_nitro_enclaves_cli.Failure.{
  NitroCliResult, ok, err, ◌>>=◌, malformed_cpu_id, cpu_error, file_operation_failure,
}
use aws_nitro_enclaves_cli.Text.{
  strip, is_blank, split, parse_u32, to_string, parse_number-to_string, strip-to_string, IsFree,
  to_string-IsFree, split-IsFree, split-IsFree_end,
}

abbrev or_malformed : Option ℕ → NitroCliResult ℕ
or_malformed none = err malformed_cpu_id
or_malformed (some n) = ok n

unfoldable pub get_value : List ℕ → NitroCliResult ℕ
get_value line = or_malformed (parse_u32 (strip line))

-- `count` numbers from `start` on.
unfoldable pub count_up : ℕ → ℕ → List ℕ
count_up start zero = []
count_up start (suc count) = start ∷ count_up (start + 1) count

-- `start_id..=end_id`
abbrev pub ids_between : ℕ → ℕ → List ℕ
ids_between start_id end_id = count_up start_id (end_id + 1 - start_id)

-- The `match` on the number of bounds.
unfoldable pub parse_bounds : List (List ℕ) → NitroCliResult (List ℕ)
parse_bounds (only ∷ []) = do id ← get_value only; ok (id ∷ [])
parse_bounds (first ∷ second ∷ []) = do
  start_id ← get_value first
  end_id ← get_value second
  ok (ids_between start_id end_id)
parse_bounds _ = err cpu_error

-- The loop over the intervals; `result` holds the IDs found so far.
unfoldable pub parse_intervals : List ℕ → List (List ℕ) → NitroCliResult (List ℕ)
parse_intervals result [] = ok result
parse_intervals result (interval ∷ intervals) = do
  ids ← parse_bounds (split b'-' interval)
  parse_intervals (result ++ ids) intervals

unfoldable pub parse_cpu_pool_line : List ℕ → NitroCliResult (List ℕ)
parse_cpu_pool_line line = parse_intervals [] (split b',' line)

-- `get_cpu_info`: the lines as the reader gives them, `none` for an I/O error.
unfoldable pub get_cpu_info : List ℕ → List (Option (List ℕ)) → NitroCliResult (List ℕ)
get_cpu_info result [] = ok result
get_cpu_info result (none ∷ lines) = err file_operation_failure
get_cpu_info result (some line ∷ lines) =
    let next = (do ids ← parse_cpu_pool_line line; get_cpu_info (result ++ ids) lines) in
    let skipped = get_cpu_info result lines in if is_blank line then skipped else next

-- What a line of the pool says.
pub data Interval : Type 0 where
  single : ℕ → Interval
  range : ℕ → ℕ → Interval

abbrev pub InRange : Interval → Type 0
InRange (single id) = id < 2 ^ 32
InRange (range start_id end_id) = (start_id < 2 ^ 32) × (end_id < 2 ^ 32)

unfoldable pub print_interval : Interval → List ℕ
print_interval (single id) = to_string id
print_interval (range start_id end_id) = to_string start_id ++ b'-' ∷ to_string end_id

-- Intervals in the format of the pool, separated by commas.
unfoldable pub print_line : Interval → List Interval → List ℕ
print_line i [] = print_interval i
print_line i (j ∷ js) = print_interval i ++ b',' ∷ print_line j js

abbrev pub ids_of : Interval → List ℕ
ids_of (single id) = id ∷ []
ids_of (range start_id end_id) = ids_between start_id end_id

abbrev pub all_ids : List Interval → List ℕ
all_ids [] = []
all_ids (i ∷ is) = ids_of i ++ all_ids is

get_value-to_string : (n : ℕ) → n < 2 ^ 32 → get_value (to_string n) ≡ ok n
unfolding get_value
get_value-to_string n h = rw (strip-to_string n, parse_number-to_string (2 ^ 32) n h)

parse_bounds-print_interval :
    (i : Interval) → InRange i → parse_bounds (split b'-' (print_interval i)) ≡ ok (ids_of i)
unfolding print_interval parse_bounds
parse_bounds-print_interval (single id) h =
    rw (split-IsFree_end b'-' (to_string id) (to_string-IsFree b'-' id (inl (omega arith))))
      (rw (get_value-to_string id h))
parse_bounds-print_interval (range start_id end_id) h =
    rw
      (
        split-IsFree b'-' (to_string start_id) (to_string end_id)
            (to_string-IsFree b'-' start_id (inl (omega arith))),
        split-IsFree_end b'-' (to_string end_id) (to_string-IsFree b'-' end_id (inl (omega arith))),
      )
      (rw (get_value-to_string start_id h.0, get_value-to_string end_id h.1))

print_interval-IsFree : (i : Interval) → IsFree b',' (print_interval i)
unfolding print_interval
print_interval-IsFree (single id) = to_string-IsFree b',' id (inl (omega arith))
print_interval-IsFree (range start_id end_id) =
    All-append _ (to_string start_id) (b'-' ∷ to_string end_id)
      (to_string-IsFree b',' start_id (inl (omega arith)))
      (refl, to_string-IsFree b',' end_id (inl (omega arith)))

parse_intervals-print_line :
    (i : Interval) (is : List Interval) (result : List ℕ)
    → All InRange (i ∷ is)
    → parse_intervals result (split b',' (print_line i is)) ≡ ok (result ++ all_ids (i ∷ is))
unfolding print_line parse_intervals
parse_intervals-print_line i [] result h = rw (
  split-IsFree_end b',' (print_interval i) (print_interval-IsFree i),
  parse_bounds-print_interval i h.0,
  append-nil,
)
parse_intervals-print_line i (j ∷ js) result h =
    rw
      (
        split-IsFree b',' (print_interval i) (print_line j js) (print_interval-IsFree i),
        parse_bounds-print_interval i h.0,
      )
      (parse_intervals-print_line j js (result ++ ids_of i) h.1
        ∙ ap ok (append_assoc result (ids_of i) (all_ids (j ∷ js))))

-- A line printed in the format of the pool from intervals of 32-bit IDs is parsed to the IDs of the
-- intervals, in order, both bounds of a range included.
pub parse_cpu_pool_line-print_line :
    (i : Interval) (is : List Interval)
    → All InRange (i ∷ is)
    → parse_cpu_pool_line (print_line i is) ≡ ok (all_ids (i ∷ is))
unfolding parse_cpu_pool_line
parse_cpu_pool_line-print_line i is h = parse_intervals-print_line i is [] h

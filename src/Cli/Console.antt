-- ===== src/Cli/Console.antt =====
-- src/utils.rs: reading from the console of an enclave, and src/lib.rs: its port.
use aws_nitro_enclaves_cli.Common.{
  ℕ, zero, suc, ◌+◌, ◌^◌, ◌≤◌, ◌%◌, ◌≡◌, refl, Option, none, some, List, [], ◌∷◌, ◌++◌, arith, ltb,
  if◌then◌else◌, take, length, sym, ap, ◌∙◌,
}
use mathlib.Core.List.{append-nil, append_assoc}
use aws_nitro_enclaves_cli.Failure.{
  NitroCliResult, ok, err, epoll_error, enclave_console_read_error,
  enclave_console_write_output_error, integer_parsing_error,
}

abbrev pub cid_to_console_port_offset : ℕ
cid_to_console_port_offset = 10000

-- The port of the console: the CID on 32 bits, and the sum on 32 bits.
unfoldable pub console_port : ℕ → NitroCliResult ℕ
console_port enclave_cid =
    if ltb enclave_cid (2 ^ 32)
    then ok ((enclave_cid + cid_to_console_port_offset) % 2 ^ 32)
    else err integer_parsing_error

-- What a wait on `epoll` answers: an error, an interruption, bytes from the console (none at its
-- end, no answer if the read fails), or the timer.
pub data ConsoleEvent : Type 0 where
  failed interrupted timer : ConsoleEvent
  console : Option (List ℕ) → ConsoleEvent

-- The stream that the bytes go to: what is written, how many writes it takes before one fails, and
-- how many bytes it takes of one write.
pub record Output : Type 0 where
  pub written : List ℕ
  pub writes : ℕ
  pub accepts : ℕ

abbrev after_write :
    (Output → Option (NitroCliResult (Unit {0})) × Output)
    → List ℕ
    → ℕ
    → Output
    → Option (NitroCliResult (Unit {0})) × Output
after_write rest bytes zero o = (some (err enclave_console_write_output_error), o)
after_write rest bytes (suc writes) o =
    rest (record o { written = o.written ++ take o.accepts bytes; writes = writes })

-- A read: the end of the console, or a chunk that is written.
abbrev after_read :
    (Output → Option (NitroCliResult (Unit {0})) × Output)
    → Option (List ℕ)
    → Output
    → Option (NitroCliResult (Unit {0})) × Output
after_read rest none o = (some (err enclave_console_read_error), o)
after_read rest (some []) o = (some (ok tt), o)
after_read rest (some (b ∷ bytes)) o = after_write rest (b ∷ bytes) o.writes o

-- The loop of `read_to`; `none` means that the program waits.
unfoldable pub read_to : List ConsoleEvent → Output → Option (NitroCliResult (Unit {0})) × Output
read_to [] o = (none, o)
read_to (failed ∷ events) o = (some (err epoll_error), o)
read_to (interrupted ∷ events) o = read_to events o
read_to (timer ∷ events) o = (some (ok tt), o)
read_to (console chunk ∷ events) o = after_read (read_to events) chunk o

-- The bytes of a console, up to its end, the timer or an error.
abbrev pub shown : List ConsoleEvent → List ℕ
shown [] = []
shown (interrupted ∷ events) = shown events
shown (console (some (b ∷ bytes)) ∷ events) = (b ∷ bytes) ++ shown events
shown (_ ∷ events) = []

-- No chunk is longer than one write takes.
abbrev pub IsAccepted : ℕ → List ConsoleEvent → Type 0
IsAccepted accepts [] = Unit
IsAccepted accepts (console (some bytes) ∷ events) =
    (length bytes ≤ accepts) × IsAccepted accepts events
IsAccepted accepts (_ ∷ events) = IsAccepted accepts events

take-enough : (n : ℕ) (bytes : List ℕ) → length bytes ≤ n → take n bytes ≡ bytes
take-enough zero [] h = refl
take-enough (suc n) [] h = refl
take-enough zero (b ∷ bytes) h = absurd (omega arith)
take-enough (suc n) (b ∷ bytes) h = ap (λ bs. b ∷ bs) (take-enough n bytes (omega arith))

after_write-ok :
    (rest : Output → Option (NitroCliResult (Unit {0})) × Output) (bytes tail : List ℕ) (writes : ℕ)
    (o : Output)
    → length bytes ≤ o.accepts
    → ((left : ℕ) (sent : List ℕ)
        → (rest (record o { written = sent; writes = left })).0 ≡ some (ok tt)
        → (rest (record o { written = sent; writes = left })).1.written ≡ sent ++ tail)
    → (after_write rest bytes writes o).0 ≡ some (ok tt)
    → (after_write rest bytes writes o).1.written ≡ o.written ++ (bytes ++ tail)
after_write-ok rest bytes tail zero o fits later e = absurd (ground arith)
after_write-ok rest bytes tail (suc left) o fits later e =
    later left (o.written ++ take o.accepts bytes) e
    ∙ ap (λ bs. (o.written ++ bs) ++ tail) (take-enough o.accepts bytes fits)
    ∙ append_assoc o.written bytes tail

-- What is read from the console and written without an error is all that the console has sent, up to
-- its end or the timer, where the stream takes each chunk as a whole.
read_to-ok :
    (events : List ConsoleEvent) (o : Output)
    → IsAccepted o.accepts events
    → (read_to events o).0 ≡ some (ok tt)
    → (read_to events o).1.written ≡ o.written ++ shown events
unfolding read_to
read_to-ok [] o h e = absurd (ground arith)
read_to-ok (failed ∷ events) o h e = absurd (ground arith)
read_to-ok (interrupted ∷ events) o h e = read_to-ok events o h e
read_to-ok (timer ∷ events) o h e = sym (append-nil o.written)
read_to-ok (console none ∷ events) o h e = absurd (ground arith)
read_to-ok (console (some []) ∷ events) o h e = sym (append-nil o.written)
read_to-ok (console (some (b ∷ bytes)) ∷ events) o h e =
    after_write-ok (read_to events) (b ∷ bytes) (shown events) o.writes o h.0
      (λ left sent f. read_to-ok events (record o { written = sent; writes = left }) h.1 f) e

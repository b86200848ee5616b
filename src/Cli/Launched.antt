-- ===== src/Cli/Launched.antt =====
-- What the command line program has sent and attached when it has run an enclave.
use aws_nitro_enclaves_cli.Common.{
  ℕ, ◌≡◌, ◌⊎◌, inl, inr, refl, Bool, true, false, Option, none, some, List, [], ◌∷◌, ◌++◌, arith,
  ap, sym, ◌∙◌, Bool-cases,
}
use Prim.Native.String.{String}
use mathlib.Core.Path.{subst}
use aws_nitro_enclaves_cli.Failure.{
  NitroCliErrorEnum, enclave_naming_error, enclave_console_connection_failure, NitroCliResult, ok,
  err, exit, ok_or_exit_with_errno,
}
use aws_nitro_enclaves_cli.Exec.{Exec, pure, continue, ◌>>=◌}
use aws_nitro_enclaves_cli.Command.{EnclaveProcessCommandType, run}
use aws_nitro_enclaves_cli.Wire.{Codec, enclave_proc_command_send_single}
use aws_nitro_enclaves_cli.Wire.RoundTrip.{IsFaithful, receive_both, receive-send}
use aws_nitro_enclaves_cli.Connection.Stream.{EnclaveProcessReply, Stream}
use aws_nitro_enclaves_cli.Args.{RunEnclavesArgs}
use aws_nitro_enclaves_cli.Args.Parse.{ArgMatches, new_with}
use aws_nitro_enclaves_cli.Args.Accepted.{new_with-attach_console}
use aws_nitro_enclaves_cli.Args.Others.{ok_or}
use aws_nitro_enclaves_cli.Comm.{Json}
use aws_nitro_enclaves_cli.Comm.Output.{enclave_process_handle_all_replies}
use aws_nitro_enclaves_cli.Common.Int.{pos}
use aws_nitro_enclaves_cli.Cli.{get_all_enclave_names}
use aws_nitro_enclaves_cli.Cli.Names.{contains, new_enclave_name}
use aws_nitro_enclaves_cli.Cli.Unique.{new_enclave_name-free}
use aws_nitro_enclaves_cli.Cli.Console.{console_port}
use aws_nitro_enclaves_cli.Cli.Main.{
  Program, or_exit, attach_if, console_enclaves, send_on, characters_of, with_name, first,
  run_command,
}

or_exit-ok :
    {A B : Type 0} (r : NitroCliResult A) (k : A → Exec Program B) (p : Program) {b : B}
    → ((or_exit r >>= k) p).0 ≡ ok b
    → (a : A) × (r ≡ ok a) × ((or_exit r >>= k) p ≡ k a p)
or_exit-ok (ok a) k p h = (a, refl, refl)
or_exit-ok (err e) k p h = absurd (ground arith)
or_exit-ok (exit e) k p h = absurd (ground arith)

ok_or-ok :
    {A : Type 0} (e : NitroCliErrorEnum) (o : Option A) (a : A) → ok_or e o ≡ ok a → o ≡ some a
ok_or-ok e none a h = absurd (ground arith)
ok_or-ok e (some b) a h = ground arith

name_free :
    (path : List ℕ) (asked : Option (List ℕ)) (names : List (List ℕ)) (name : List ℕ)
    → new_enclave_name path asked names ≡ some name
    → contains names name ≡ false
name_free path asked names name h =
    let (idx, e, free, lower) = new_enclave_name-free path asked names in
    ap (contains names) (some_injective (sym h ∙ e)) ∙ free
  where
    some_injective : {x y : List ℕ} → some x ≡ some y → x ≡ y
    some_injective e = cc

goes_on : {A : Type 0} {x y : NitroCliResult A × Program} {a : A} → x ≡ y → x.0 ≡ ok a → y.0 ≡ ok a
goes_on {A = A} step h = ap (λ (r : NitroCliResult A × Program). r.0) (sym step) ∙ h

sent-ok :
    {B : Type 0} (r : NitroCliResult (Unit {0})) (q : Program) (sent : Stream)
    (k : Stream → Exec Program B) {b : B}
    → (continue (continue (ok_or_exit_with_errno r, q) (λ (_ : Unit {0}). pure sent)) k).0 ≡ ok b
    → (r ≡ ok tt)
      × (continue (continue (ok_or_exit_with_errno r, q) (λ (_ : Unit {0}). pure sent)) k
          ≡ k sent q)
sent-ok (ok _) q sent k h = (refl, refl)
sent-ok (err e) q sent k h = absurd (ground arith)
sent-ok (exit e) q sent k h = absurd (ground arith)

module _ (console : ℕ → Option ℕ → NitroCliResult (Unit {0})) where
  -- The consoles that are attached to at the end of a run of an enclave with the CID `cid`.
  abbrev pub Attaches : RunEnclavesArgs → ℕ → Program → Program → Type 0
  Attaches args cid p q =
      (args.attach_console ≡ false) × (q.attached ≡ p.attached)
      ⊎ (args.attach_console ≡ true)
        × (args.debug_mode ≡ true)
        × ((port : ℕ) × (console_port cid ≡ ok port)
            × (q.attached ≡ p.attached ++ (port, none) ∷ []))

  console_enclaves-ok :
      (cid : ℕ) (p : Program)
      → (console_enclaves console cid none p).0 ≡ ok tt
      → (port : ℕ) × (console_port cid ≡ ok port)
        × ((console_enclaves console cid none p).1.attached ≡ p.attached ++ (port, none) ∷ [])
  unfolding console_enclaves
  console_enclaves-ok cid p h =
      let (port, e, step) = or_exit-ok (console_port cid) _ p h in
      (port, e, ap (λ (r : NitroCliResult (Unit {0}) × Program). r.1.attached) step)

  attach_if-comm :
      (attach_console : Bool) (cid : ℕ) (p : Program)
      → (attach_if console attach_console cid p).1.comm ≡ p.comm
  unfolding console_enclaves
  attach_if-comm true cid p = ground arith
  attach_if-comm false cid p = refl

  attach_if-ok :
      (args : RunEnclavesArgs) (cid : ℕ) (p : Program)
      → (args.attach_console ≡ true → args.debug_mode ≡ true)
      → (attach_if console args.attach_console cid p).0 ≡ ok tt
      → Attaches args cid p (attach_if console args.attach_console cid p).1
  attach_if-ok args cid p debug h = elim (Bool-cases args.attach_console) [
    | inr plain ↦ inl (plain, rw plain refl)
    | inl attaches ↦
        let (port, e, attached) = console_enclaves-ok cid p (rw attaches at h) in
        inr (attaches, debug attaches, (port, e, rw attaches attached))
  ]

  module _ (commands : Codec EnclaveProcessCommandType) (replies : Codec EnclaveProcessReply) where
    -- The socket after the command to run went out on it, and the program with it.
    abbrev comm_after : {A : Type 0} → Codec A → A → Stream → Stream
    comm_after arguments args comm = record comm {
      sink = (enclave_proc_command_send_single commands arguments run (some args) comm.sink).1;
    }

    abbrev sent_on : {A : Type 0} → Codec A → A → Stream → Program → Program
    sent_on arguments args comm p = record p { comm = some (comm_after arguments args comm) }

    send_on-ok :
        {A B : Type 0} (arguments : Codec A) (cmd : EnclaveProcessCommandType) (args : A)
        (comm : Stream) (k : Stream → Exec Program B) (p : Program) {b : B}
        → ((send_on commands arguments cmd (some args) comm >>= k) p).0 ≡ ok b
        → let sent =
            enclave_proc_command_send_single commands arguments cmd (some args) comm.sink in
          let comm' = record comm { sink = sent.1 } in
          (sent.0 ≡ ok tt)
          × ((send_on commands arguments cmd (some args) comm >>= k) p
              ≡ k comm' (record p { comm = some comm' }))
    send_on-ok arguments cmd args comm k p h =
        let sent = enclave_proc_command_send_single commands arguments cmd (some args) comm.sink in
        let comm' = record comm { sink = sent.1 } in
        sent-ok sent.0 (record p { comm = some comm' }) comm' k h

    module _ (characters : String → List ℕ) (of_characters : List ℕ → String) where
      -- Where the encodings are faithful and the new process has been sent nothing before: a success of
      -- `run-enclave` means that the arguments were accepted, that no enclave whose process has reported its name
      -- has the name given to the new one, and that the new process can read the command to run, by both of its
      -- readers, with the arguments and that name, and nothing else. The process has reported the enclave. Where the
      -- arguments ask for the console, the enclave is run in debug mode and the console of the CID in that
      -- report is attached to, with no timeout; where they do not, no console is attached to.
      pub run_command-ok :
          {T : Type 0} (arguments : Codec RunEnclavesArgs) (texts : Json (List ℕ)) (json : Json T)
          (cid_of : T → ℕ) (matches : ArgMatches) (comm : Stream) (comms : List Stream)
          (p : Program)
          → IsFaithful commands
          → IsFaithful arguments
          → comm.sink.written ≡ []
          → let (result, q) =
              run_command console commands replies characters of_characters arguments texts json
                cid_of matches
                (ok comm)
                (ok comms)
                p in
            result ≡ ok tt
            → (args : RunEnclavesArgs) × (name : List ℕ) × (comm' : Stream) × (run_info : List T)
              × (report : T) × (new_with matches ≡ ok args)
              × (contains (get_all_enclave_names replies texts comms) name ≡ false)
              × (q.comm ≡ some comm')
              × (receive_both commands arguments comm'.sink.written
                  ≡ (ok (run, run, with_name of_characters args name), []))
              × (enclave_process_handle_all_replies replies json (comm' ∷ []) 0 false (pos 0 ∷ [])
                  ≡ ok run_info)
              × (first run_info ≡ some report)
              × Attaches args (cid_of report) p q
      unfolding run_command
      run_command-ok arguments texts json cid_of matches comm comms p cs ds fresh h =
          let (args, accepted, step) = or_exit-ok (new_with matches) _ p h in
          let (name, named, step1) =
            or_exit-ok
              (ok_or enclave_naming_error (
                new_enclave_name (characters args.eif_path)
                  (characters_of characters args.enclave_name)
                  (get_all_enclave_names replies texts comms)))
              _ p (goes_on step h) in
          let (sends, step2) =
            send_on-ok arguments run (with_name of_characters args name) comm _ p
              (goes_on step1 (goes_on step h)) in
          let q1 = sent_on arguments (with_name of_characters args name) comm p in
          let ends2 = goes_on step2 (goes_on step1 (goes_on step h)) in
          let (run_info, reported, step3) =
            or_exit-ok
              (enclave_process_handle_all_replies replies json (_ ∷ []) 0 false (pos 0 ∷ [])) _ q1
              ends2 in
          let (report, first_is, step4) =
            or_exit-ok (ok_or enclave_console_connection_failure (first run_info)) _ q1
              (goes_on step3 ends2) in
          let ends4 = goes_on step4 (goes_on step3 ends2) in
          let whole = step ∙ step1 ∙ step2 ∙ step3 ∙ step4 in
          let debug = new_with-attach_console matches args accepted in
          (
            args,
            name,
            comm_after arguments (with_name of_characters args name) comm,
            run_info,
            report,
            accepted,
            name_free (characters args.eif_path) (characters_of characters args.enclave_name)
                (get_all_enclave_names replies texts comms) name
                (ok_or-ok enclave_naming_error _ name named),
            ap (λ (r : NitroCliResult (Unit {0}) × Program). r.1.comm) whole
                ∙ attach_if-comm args.attach_console (cid_of report) q1,
            receive-send commands arguments run (with_name of_characters args name) comm.sink cs ds
                fresh sends,
            reported,
            ok_or-ok enclave_console_connection_failure (first run_info) report first_is,
            subst (λ (r : NitroCliResult (Unit {0}) × Program). Attaches args (cid_of report) p r.1)
                (sym whole) (attach_if-ok args (cid_of report) q1 debug ends4),
          )

-- ===== src/Cli/Dispatch.antt =====
-- cli.py: what `main` does with a command line.
use phonect.Prelude.{ℕ, String, List, ◌≡◌, refl}
use phonect.Python.{ProtocolFault, ok, Result}
use phonect.Python.Disk.{Disk}
use phonect.Protocol.Frame.{Json}
use phonect.Crypto.{Cryptography}
use phonect.Cli.Parser.{build_parser, Namespace, Command}
use phonect.Cli.Parser.Typed.{IsParsed}
use phonect.Cli.Parser.Says.{Says, command_of_reads}
use phonect.Cli.Run.{
  System, Parsed, stopped, parsed, exits, Outcome, run_command, main_parsed, main,
}

module _ (crypto : Cryptography) (json : Json) (str_fault : ProtocolFault → String) where
  -- What `main` does behind the parsing: it exits, or runs what the namespace says.
  pub data Dispatched (sys : System crypto) (disk : Disk) (result : Result (Outcome crypto) × Disk)
      : Parsed → Type 0 where
    exited :
        (status : ℕ)
        → result ≡ (ok (exits status), disk)
        → Dispatched sys disk result (stopped status)
    ran :
        (args : Namespace) (c : Command)
        → Says args c
        → result ≡ run_command crypto json str_fault sys c disk
        → Dispatched sys disk result (parsed args)

  main_parsed-Dispatched :
      (sys : System crypto) (p : Parsed) (disk : Disk)
      → ((args : Namespace) → p ≡ parsed args → IsParsed build_parser args)
      → Dispatched sys disk (main_parsed crypto json str_fault sys p disk) p
  unfolding main_parsed
  main_parsed-Dispatched sys (stopped status) disk promised = exited status refl
  main_parsed-Dispatched sys (parsed args) disk promised =
      let (c, reads, says) = command_of_reads args (promised args refl) in
      ran args c says (rw reads refl)

  -- Where `argparse` gives namespaces as it documents them, `phonect` on any command line exits with the
  -- status of `argparse` and leaves the disk alone, if that stops it; else it runs the command that the
  -- namespace says, which is the one of its handler, with the value of each attribute that this handler
  -- reads: no handler fails for a missing attribute or one of the wrong type.
  pub main_dispatches :
      (sys : System crypto) (argv : List String) (disk : Disk)
      → ((args : Namespace)
          → sys.parse_args build_parser argv ≡ parsed args
          → IsParsed build_parser args)
      → Dispatched sys disk
          (main crypto json str_fault sys argv disk)
          (sys.parse_args build_parser argv)
  main_dispatches sys argv disk promised =
      main_parsed-Dispatched sys (sys.parse_args build_parser argv) disk promised

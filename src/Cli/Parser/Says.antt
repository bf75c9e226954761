-- ===== src/Cli/Parser/Says.antt =====
-- cli.py: the command that a namespace of `argparse` says, and the one that is read from it.
use phonect.Prelude.{String, Bool, false, Option, some, ◌≡◌, inl, inr, refl, ◌∙◌, ap}
use phonect.Python.{ℤ, pos, bool, int, float, str, get, ok}
use phonect.Cli.Parser.{
  build_parser, Namespace, func_gen_keys, func_server, func_client, func_daemon, func_init_config,
  func_pair, Command, gen_keys, server, client, daemon, init_config, pair, as_text, as_integer,
  as_number, as_truth, as_optional_text, command_for, command_of,
}
use phonect.Cli.Parser.Typed.{
  IsParsed, optional, reads, text-Fits, text_or_none-Fits, integer-Fits, number-Fits, truth-Fits,
  text_placed, integer_placed, log_level_read,
}

-- What a namespace says: its handler, and each attribute that this handler reads as the value that the
-- command holds.
pub data Says (args : Namespace) : Command → Type 0 where
  says_gen_keys :
      (private_key public_key : String)
      → args.func ≡ func_gen_keys
      → get "private_key" args.values ≡ some (str private_key)
      → get "public_key" args.values ≡ some (str public_key)
      → Says args (gen_keys private_key public_key)
  says_server :
      (log_level public_key : String) (port : ℤ) (timeout : String)
      → args.func ≡ func_server
      → get "log_level" args.values ≡ some (str log_level)
      → get "public_key" args.values ≡ some (str public_key)
      → get "port" args.values ≡ some (int port)
      → get "timeout" args.values ≡ some (float timeout)
      → Says args (server log_level public_key port timeout)
  says_client :
      (log_level private_key device_name timeout pc_ip : String) (pc_port : ℤ)
      → args.func ≡ func_client
      → get "log_level" args.values ≡ some (str log_level)
      → get "private_key" args.values ≡ some (str private_key)
      → get "device_name" args.values ≡ some (str device_name)
      → get "timeout" args.values ≡ some (float timeout)
      → get "pc_ip" args.values ≡ some (str pc_ip)
      → get "pc_port" args.values ≡ some (int pc_port)
      → Says args (client log_level private_key device_name timeout pc_ip pc_port)
  says_daemon :
      (config : Option String) (foreground : Bool)
      → args.func ≡ func_daemon
      → get "config" args.values ≡ some (optional config)
      → get "foreground" args.values ≡ some (bool foreground)
      → Says args (daemon config foreground)
  says_init_config :
      (path : Option String)
      → args.func ≡ func_init_config
      → get "path" args.values ≡ some (optional path)
      → Says args (init_config path)
  says_pair : args.func ≡ func_pair → Says args pair

-- The namespace that `argparse` makes for `build_parser` holds every attribute that the chosen handler
-- reads, as a value of the type that the handler needs, and this is the value that it reads.
pub command_of_reads :
    (args : Namespace)
    → IsParsed build_parser args
    → (c : Command) × (command_of args ≡ ok c) × Says args c
unfolding command_for
command_of_reads args (inl (chosen, _, (a, (b, _)))) =
    let (x, e, e') = reads as_text str args _ (text-Fits "--private-key" "phonect_private.pem") a in
    let (y, f, f') = reads as_text str args _ (text-Fits "--public-key" "phonect_public.pem") b in
    (
      gen_keys x y,
      ap (λ o. command_for o args) chosen ∙ rw (e, f) refl,
      says_gen_keys x y chosen e' f',
    )
command_of_reads args (inr (inl (chosen, (l, _), (a, (b, (c, _)))))) =
    let (z, g, g') = log_level_read args l in
    let (x, e, e') = reads as_text str args _ (text_placed "public_key") a in
    let (y, f, f') = reads as_integer int args _ (integer-Fits "--port" (pos 0)) b in
    let (t, k, k') = reads as_number float args _ (number-Fits "--timeout" "30.0") c in
    (
      server z x y t,
      ap (λ o. command_for o args) chosen ∙ rw (g, e, f, k) refl,
      says_server z x y t chosen g' e' f' k',
    )
command_of_reads args (inr (inr (inl (chosen, (l, _), (a, (b, (c, (d, (t, _))))))))) =
    let (z, g, g') = log_level_read args l in
    let (x, e, e') = reads as_text str args _ (text_placed "private_key") a in
    let (y, f, f') = reads as_text str args _ (text_placed "pc_ip") b in
    let (n, h, h') = reads as_integer int args _ (integer_placed "pc_port") c in
    let (m, k, k') = reads as_text str args _ (text-Fits "--device-name" "android-emulator") d in
    let (s, j, j') = reads as_number float args _ (number-Fits "--timeout" "10.0") t in
    (
      client z x m s y n,
      ap (λ o. command_for o args) chosen ∙ rw (g, e, k, j, f, h) refl,
      says_client z x m s y n chosen g' e' k' j' f' h',
    )
command_of_reads args (inr (inr (inr (inl (chosen, _, (a, (b, _))))))) =
    let (x, e, e') = reads as_optional_text optional args _ (text_or_none-Fits "--config") a in
    let (y, f, f') = reads as_truth bool args _ (truth-Fits "--foreground" false) b in
    (daemon x y, ap (λ o. command_for o args) chosen ∙ rw (e, f) refl, says_daemon x y chosen e' f')
command_of_reads args (inr (inr (inr (inr (inl (chosen, _, (a, _))))))) =
    let (x, e, e') = reads as_optional_text optional args _ (text_or_none-Fits "--path") a in
    (init_config x, ap (λ o. command_for o args) chosen ∙ rw (e) refl, says_init_config x chosen e')
command_of_reads args (inr (inr (inr (inr (inr (inl (chosen, _, _))))))) =
    (pair, ap (λ o. command_for o args) chosen, says_pair chosen)
command_of_reads args (inr (inr (inr (inr (inr (inr impossible)))))) = absurd impossible

-- ===== src/Tests/Setup.antt =====
-- The setup at concrete inputs.
use via_solana_gateway_v.Prelude.{
  ℕ, zero, suc, ◌+◌, ◌^◌, ◌≤◌, ◌<◌, ◌≡◌, refl, subst, true, false, ◌&&◌, List, [], ◌∷◌, length,
  none, some, All, replicate, ltb, lt→ltb, if◌then◌else◌, arith, Text, codes, text_eq, type_error,
  range_error, Result, ok, err,
}
use via_solana_gateway_v.Prelude.Digits.{print_base, to_string}
use via_solana_gateway_v.Buffer.{Bytes, IsBytes, le_bytes}
use via_solana_gateway_v.Decoders.Utils.{get_chain_name}
use via_solana_gateway_v.Decoders.Utils.Base58.{base58_text}
use via_solana_gateway_v.Decoders.Utils.Reads.{IsKey}
use via_solana_gateway_v.Decoders.Instructions.{
  decode_initialize_gateway, decode_initialize_signer_registry,
}
use via_solana_gateway_v.Setup.Types.{SetupConfig, TransactionInstruction, PostDeploymentSetup}
use via_solana_gateway_v.Setup.Cluster.{Cluster}
use via_solana_gateway_v.Setup.Build.{
  get_instruction_discriminator, build_gateway_instruction, build_registry_instruction,
}
use via_solana_gateway_v.Setup.Build.Decoded.{
  IsRegistryType, build_gateway_instruction-decoded, build_registry_instruction-decoded,
}
use via_solana_gateway_v.Setup.Run.{setup}
use via_solana_gateway_v.Setup.Run.Planned.{Planned, setup-Planned, setup_dry_run}
use via_solana_gateway_v.Setup.Run.Reports.{initialized, reported}
use via_solana_gateway_v.Setup.Run.Accounting.{asked, setup_reports}
use via_solana_gateway_v.Prelude.Words.{includes}
use via_solana_gateway_v.Setup.Config.{
  CliArgs, Host, Exit, parse_args, parse_options, takes_value, set_option, prepare, run_prepared,
  main, default_config,
}
use via_solana_gateway_v.Setup.Config.CommandLine.{command_line, parse_args-command_line}
use via_solana_gateway_v.Setup.Config.DryRun.{main_dry_run}

replicate-IsBytes : (n b : ℕ) → b < 256 → IsBytes (replicate n b)
replicate-IsBytes zero b h = tt
replicate-IsBytes (suc n) b h = (h, replicate-IsBytes n b h)

abbrev a_key : Bytes
a_key = replicate 32 7

a_key-IsKey : IsKey a_key
a_key-IsKey = (refl, replicate-IsBytes 32 7 (omega arith))

abbrev checked_le : ℕ → ℕ → Result Bytes
checked_le width n =
    if ltb n (2 ^ 53) && ltb n (256 ^ width) then ok (le_bytes width n) else err range_error

checked_le-le_bytes :
    (width n : ℕ) → n < 2 ^ 53 → n < 256 ^ width → checked_le width n ≡ ok (le_bytes width n)
checked_le-le_bytes width n safe fits =
    rw (lt→ltb n (2 ^ 53) safe) (rw (lt→ltb n (256 ^ width) fits))

-- Text that is longer than one character is a key.
abbrev some_key : Text → Result Bytes
some_key [] = err type_error
some_key (c ∷ s) = ok a_key

some_key-IsKey : (text : Text) (key : Bytes) → some_key text ≡ ok key → IsKey key
some_key-IsKey [] key e = cc
some_key-IsKey (c ∷ s) key e = let same : a_key ≡ key = cc in subst IsKey same a_key-IsKey

-- A cluster without accounts that counts the transactions.
abbrev cluster : Cluster ℕ
cluster = record {
  system_program = replicate 32 0;
  find_program_address = λ seeds program. ok (replicate 32 5);
  public_key = some_key;
  public_key-IsKey = some_key-IsKey;
  to_array_like = checked_le;
  to_array_like-le_bytes = checked_le-le_bytes;
  show_error = λ e. codes "error";
  sol_to_fixed = to_string;
  get_account_info = λ address w. (ok none, w);
  get_balance = λ address w. (ok 2000000000, w);
  send_and_confirm = λ ix w. (ok (to_string w), w + 1);
}

abbrev disc : Bytes
disc = 1 ∷ 2 ∷ 3 ∷ 4 ∷ 5 ∷ 6 ∷ 7 ∷ 8 ∷ []

abbrev this : PostDeploymentSetup
this = record {
  program_id = replicate 32 1;
  authority = replicate 32 2;
  idl =
      record { name = codes "initialize_gateway"; discriminator = disc }
      ∷ record { name = codes "initialize_counter"; discriminator = disc }
      ∷ record { name = codes "initialize_signer_registry"; discriminator = disc }
      ∷ [];
}

abbrev config : SetupConfig
config = record default_config { skip_existing = false }

setup-Planned_example : All (Planned cluster this config) (setup cluster this config 0).sent
setup-Planned_example = setup-Planned cluster this config 0

setup_reports_example :
    let r = (setup cluster this config 0).result in
    (asked config ≤ reported r)
    × (reported r ≤ asked config + 1)
    × (length r.transactions ≡ initialized r)
setup_reports_example = setup_reports cluster config this refl 0

setup_dry_run_example : (setup cluster this (record config { dry_run = true }) 0).sent ≡ []
setup_dry_run_example = setup_dry_run cluster this (record config { dry_run = true }) 0 refl

found_gateway : get_instruction_discriminator this.idl (codes "initialize_gateway") ≡ ok disc
unfolding get_instruction_discriminator text_eq
found_gateway = refl

found_registry :
    get_instruction_discriminator this.idl (codes "initialize_signer_registry") ≡ ok disc
unfolding get_instruction_discriminator text_eq
found_registry = refl

build_gateway_instruction-decoded_example :
    (ix : TransactionInstruction) × (build_gateway_instruction cluster this a_key 7 ≡ ok ix)
    × (decode_initialize_gateway ix.data_bytes
        ≡ ok (record { chain_id = codes "7"; chain_name = codes "Chain 7" }))
unfolding to_string print_base get_chain_name text_eq
build_gateway_instruction-decoded_example =
    build_gateway_instruction-decoded cluster this disc refl 7 (omega arith) a_key found_gateway

build_registry_instruction-decoded_example :
    (ix : TransactionInstruction) × (build_registry_instruction cluster this a_key a_key
        (codes "Chain")
        1
        (a_key ∷ [])
        1
      ≡ ok ix)
    × (decode_initialize_signer_registry ix.data_bytes
        ≡ ok (record {
          registry_type = codes "Chain";
          registry_type_value = some 1;
          chain_id = codes "1";
          chain_name = codes "Solana Testnet";
          signers = base58_text a_key ∷ [];
          signer_count = 1;
          required_signatures = some 1;
        }))
unfolding to_string print_base get_chain_name text_eq
build_registry_instruction-decoded_example =
    build_registry_instruction-decoded cluster this disc refl 1 (omega arith) (codes "Chain") 1
      a_key a_key (a_key ∷ []) 1 found_registry IsRegistryType.chain (a_key-IsKey, tt) (omega arith)
      (omega arith)

abbrev cli : CliArgs
cli = record {
  network = codes "devnet";
  config_path = some (codes "a.json");
  program_id = none;
  wallet_path = some (codes "w");
  dry_run = true;
  skip_existing = false;
}

parse_args-command_line_example : parse_args (command_line cli) ≡ some cli
unfolding text_eq
parse_args-command_line_example =
    parse_args-command_line cli (record { not_help = refl; not_dry_run = refl; not_force = refl })
      (record { not_help = refl; not_dry_run = refl; not_force = refl }) tt
      (record { not_help = refl; not_dry_run = refl; not_force = refl })

abbrev host : Host ℕ
host = record {
  read_network_config = ok (
      (
        codes "devnet",
        record { url = codes "u"; program_id = some (codes "p"); wallet_path = none },
      )
      ∷ []);
  file_exists = λ path. true;
  read_config = λ path. ok (record {
    chains = none;
    signer_registries = none;
    skip_existing = none;
    dry_run = some false;
  });
  env_program_id = none;
  env_anchor_wallet = none;
  create = λ url key wallet. ok this;
  cluster = λ url. cluster;
}

abbrev words : List Text
words = codes "devnet" ∷ codes "--config" ∷ codes "a.json" ∷ codes "--dry-run" ∷ []

words-dry_run : includes (codes "--dry-run") words ≡ true
unfolding includes text_eq
words-dry_run = refl

abbrev words_cli : CliArgs
words_cli = record {
  network = codes "devnet";
  config_path = some (codes "a.json");
  program_id = none;
  wallet_path = none;
  dry_run = true;
  skip_existing = true;
}

abbrev words_exit : Exit ℕ
words_exit = run_prepared host (prepare host words_cli) 0

words-exit : main host words 0 ≡ some words_exit
unfolding main parse_args includes text_eq parse_options takes_value set_option
words-exit = refl

main_dry_run_example : words_exit.sent ≡ []
main_dry_run_example = main_dry_run host words 0 words_exit words-dry_run words-exit

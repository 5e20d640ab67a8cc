-- ===== src/Tests/Network.antt =====
-- The network manager at concrete inputs.
use via_solana_gateway_v.Prelude.{
  text_eq, ◌≡◌, refl, Bool, true, false, List, [], ◌∷◌, Option, none, some, ◌&◌, Text, codes, Error,
  type_error, range_error, syntax_error, thrown, Result, ok, err,
}
use via_solana_gateway_v.Prelude.Actions.{rescue, ◌>>=◌}
use via_solana_gateway_v.Prelude.Words.{
  split, trim, trim_start, trim_end, is_space, starts_with, ends_with, Lacks-lacks,
}
use via_solana_gateway_v.Network.Types.{Network, NetworkConfig, Paths, entry}
use via_solana_gateway_v.Network.System.{System}
use via_solana_gateway_v.Network.Console.{Console, require_command}
use via_solana_gateway_v.Network.Config.{save_config}
use via_solana_gateway_v.Network.Keypair.{
  get_keypair_address, store_program_id, use_keypair, ensure_directory, generate_for,
  generate_keypair,
}
use via_solana_gateway_v.Network.Keypair.Recorded.{
  recorded, Careful, generate_keypair-recorded, generate_keypair-Careful,
}
use via_solana_gateway_v.Network.Toml.{
  section_header, program_line, opens_section, update_lines, update_program,
}
use via_solana_gateway_v.Network.Toml.Reference.{set_program}
use via_solana_gateway_v.Network.Toml.Indices.{update_lines-set_program}
use via_solana_gateway_v.Network.Toml.Programs.{Tidy}
use via_solana_gateway_v.Network.Anchor.{update_toml}
use via_solana_gateway_v.Network.Anchor.Programs.{
  programs, assign_all, Writable, update_program_twice, update_toml-programs,
}

-- Files as a table from paths to texts.
abbrev pub Files : Type 0
Files = List (Text × Text)

abbrev is_file : Option Text → Bool
is_file none = false
is_file (some text) = true

abbrev content : Option Text → Result Text
content none = err type_error
content (some text) = ok text

abbrev message : Error → Text
message range_error = codes "RangeError"
message type_error = codes "TypeError"
message syntax_error = codes "SyntaxError"
message (thrown text) = text

abbrev pub a_program : Text
a_program = codes "2RgmXiQc6d5nys8vCMLKAovNKXneQK9SLkgRtnThex7i"

abbrev pub devnet : Network
devnet = record {
  url = codes "https://api.devnet.solana.com";
  program_id = some a_program;
  keypair_path = codes "keypair.json";
  commitment = codes "confirmed";
  cost = codes "free";
  description = codes "Devnet testing network";
}

abbrev pub a_config : NetworkConfig
a_config = record {
  networks = (codes "devnet", devnet) ∷ [];
  requirements =
      (
        codes "devnet",
        record {
          min_balance = codes "2 SOL";
          validation = codes "keypair_exists" ∷ codes "network_reachable" ∷ [];
        },
      )
      ∷ [];
}

-- A system whose commands all succeed and print a program ID.
abbrev pub a_system : System Files
a_system = record {
  exists_sync = λ path files. is_file (entry path files);
  read_file_sync = λ path files. content (entry path files);
  write_file_sync = λ path text files. (ok tt, (path, text) ∷ files);
  mkdir_sync = λ path files. (ok tt, (path, []) ∷ files);
  unlink_sync = λ path files. (ok tt, files);
  stat_size = λ path files. ok 100;
  exec_sync = λ cwd command files. (ok a_program, files);
  now = λ files. (0, files);
  resolve = λ path. path;
  dirname = λ path. codes "target";
  error_message = message;
  show_error = message;
  parse_config = λ text.
      ok (record {
        networks = some (a_config.networks);
        requirements = some (a_config.requirements);
      });
  print_config = λ config. codes "{}";
}

abbrev pub the_paths : Paths
the_paths = record {
  config_path = codes "network-config.json";
  anchor_toml_path = codes "Anchor.toml";
  project_root = codes ".";
}

-- The lines of an Anchor.toml with a section for another network.
abbrev some_lines : List Text
some_lines =
    section_header (codes "localnet") ∷ program_line (codes "Old") ∷ codes "[provider]" ∷ []

abbrev pub a_console : Console Files
a_console = record {
  world =
      (codes "keypair.json", codes "[1]")
      ∷ (codes "target", [])
      ∷ (codes "Anchor.toml", codes "[provider]")
      ∷ [];
  config = a_config;
  effects = [];
}

update_lines-set_program_example :
    update_lines (section_header (codes "devnet")) (program_line a_program) some_lines
    ≡ set_program (program_line a_program) (section_header (codes "devnet")) some_lines
update_lines-set_program_example =
    update_lines-set_program (program_line a_program) (section_header (codes "devnet")) some_lines

update_program_twice_example :
    update_program
      (codes "localnet")
      a_program
      (update_program (codes "localnet") a_program some_lines)
    ≡ update_program (codes "localnet") a_program some_lines
update_program_twice_example = update_program_twice (codes "localnet") a_program some_lines

a_config-Writable : Writable (a_config.networks) (codes "devnet" ∷ [])
unfolding entry text_eq
a_config-Writable =
    ((Lacks-lacks 10 (codes "devnet") refl, (devnet, refl, Lacks-lacks 10 a_program refl)), tt)

a_text-Tidy : Tidy (split 10 (codes "[provider]"))
unfolding split opens_section starts_with ends_with
a_text-Tidy = (λ e. refl) & tt

update_toml-programs_example :
    (edited : Text) × (update_toml a_config (codes "devnet" ∷ []) (codes "[provider]") ≡ ok edited)
    × (programs (split 10 edited)
        ≡ assign_all
            (a_config.networks)
            (codes "devnet" ∷ [])
            (programs (split 10 (codes "[provider]"))))
update_toml-programs_example =
    update_toml-programs a_config (codes "devnet" ∷ []) (codes "[provider]") a_config-Writable
      a_text-Tidy

abbrev generated : Result Text × Console Files
generated = generate_keypair a_system the_paths (codes "devnet") a_console

generated_lem : generated ≡ (ok a_program, generated.1)
unfolding generate_keypair generate_for ensure_directory use_keypair get_keypair_address
    require_command store_program_id save_config entry trim trim_start trim_end is_space ◌>>=◌
    text_eq rescue
generated_lem = refl

generate_keypair-recorded_example :
    recorded (codes "devnet") generated.1.config ≡ some (some a_program)
generate_keypair-recorded_example =
    generate_keypair-recorded a_system the_paths (codes "devnet") a_console generated.1 a_program
      generated_lem

the_entry : entry (codes "devnet") (a_config.networks) ≡ some devnet
unfolding entry text_eq
the_entry = refl

the_directory : is_file (entry (codes "target") a_console.world) ≡ true
unfolding entry text_eq
the_directory = refl

the_keypair : is_file (entry (codes "keypair.json") a_console.world) ≡ true
unfolding entry text_eq
the_keypair = refl

generate_keypair-Careful_example : Careful generated.1
generate_keypair-Careful_example =
    generate_keypair-Careful a_system the_paths (codes "devnet") devnet a_console the_entry
      the_directory the_keypair tt

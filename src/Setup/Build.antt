-- ===== src/Setup/Build.antt =====
-- The program addresses and the instructions that scripts/deployment/setup.ts builds.
pub mod Decoded
use via_solana_gateway_v.Prelude.{
  ℕ, ◌%◌, true, false, List, [], ◌∷◌, ◌++◌, length, replicate, if◌then◌else◌, Text, codes, text_eq,
  thrown, Result, ok, err, ◌>>=◌,
}
use via_solana_gateway_v.Buffer.{Bytes, concat, le_bytes}
use via_solana_gateway_v.Setup.Types.{
  TransactionInstruction, AccountMeta, IdlInstruction, PostDeploymentSetup,
}
use via_solana_gateway_v.Setup.Cluster.{Cluster}

-- `idl.instructions.find(ix => ix.name === name)`, and its discriminator.
unfoldable pub get_instruction_discriminator : List IdlInstruction → Text → Result Bytes
get_instruction_discriminator [] name =
    err (thrown (codes "Instruction " ++ name ++ codes " not found in IDL"))
get_instruction_discriminator (ix ∷ idl) name =
    if text_eq ix.name name then ok ix.discriminator else get_instruction_discriminator idl name

unfoldable pub get_registry_type_discriminant : Text → Result ℕ
get_registry_type_discriminant registry_type =
    if text_eq registry_type (codes "VIA")
    then ok 0
    else if text_eq registry_type (codes "Chain")
    then ok 1
    else if text_eq registry_type (codes "Project")
    then ok 2
    else err (thrown (codes "Unknown registry type: " ++ registry_type))

module _ {World : Type 0} (cluster : Cluster World) (this : PostDeploymentSetup) where
  unfoldable pub get_gateway_pda : ℕ → Result Bytes
  get_gateway_pda chain_id = do
    chain ← cluster.to_array_like 8 chain_id
    cluster.find_program_address (codes "gateway" ∷ chain ∷ []) this.program_id

  unfoldable pub get_signer_registry_pda : Text → ℕ → Result Bytes
  get_signer_registry_pda registry_type chain_id = do
    discriminant ← get_registry_type_discriminant registry_type
    type_seed ← cluster.to_array_like 1 discriminant
    chain ← cluster.to_array_like 8 chain_id
    cluster.find_program_address (codes "signer_registry" ∷ type_seed ∷ chain ∷ []) this.program_id

  unfoldable pub get_counter_pda : ℕ → Result Bytes
  get_counter_pda source_chain_id = do
    chain ← cluster.to_array_like 8 source_chain_id
    cluster.find_program_address (codes "counter" ∷ chain ∷ []) this.program_id

  -- The authority as an account of an instruction, and the system program.
  abbrev pub signing_authority : AccountMeta
  signing_authority = record { pubkey = this.authority; is_signer = true; is_writable = true }

  abbrev pub system_account : AccountMeta
  system_account = record {
    pubkey = cluster.system_program;
    is_signer = false;
    is_writable = false;
  }

  unfoldable pub build_gateway_instruction : Bytes → ℕ → Result TransactionInstruction
  build_gateway_instruction gateway_pda chain_id = do
    discriminator ← get_instruction_discriminator this.idl (codes "initialize_gateway")
    chain ← cluster.to_array_like 8 chain_id
    ok (record {
      keys =
          record { pubkey = gateway_pda; is_signer = false; is_writable = true }
          ∷ signing_authority
          ∷ system_account
          ∷ [];
      program_id = this.program_id;
      data_bytes = concat (discriminator ∷ chain ∷ []);
    })

  -- `Buffer.from([threshold])` keeps the low 8 bits.
  unfoldable pub build_registry_instruction :
      Bytes → Bytes → Text → ℕ → List Bytes → ℕ → Result TransactionInstruction
  build_registry_instruction registry_pda gateway_pda registry_type chain_id signers threshold = do
    discriminator ← get_instruction_discriminator this.idl (codes "initialize_signer_registry")
    discriminant ← get_registry_type_discriminant registry_type
    registry_type_buffer ← cluster.to_array_like 1 discriminant
    chain ← cluster.to_array_like 8 chain_id
    signers_length ← cluster.to_array_like 4 (length signers)
    ok (record {
      keys =
          record { pubkey = registry_pda; is_signer = false; is_writable = true }
          ∷ record { pubkey = gateway_pda; is_signer = false; is_writable = false }
          ∷ signing_authority
          ∷ system_account
          ∷ [];
      program_id = this.program_id;
      data_bytes = concat (
          discriminator
          ∷ registry_type_buffer
          ∷ chain
          ∷ signers_length
          ∷ concat signers
          ∷ ((threshold % 256) ∷ [])
          ∷ []);
    })

  -- The gateway of chain 1, Solana, stands for the authority.
  unfoldable pub build_counter_instruction : Bytes → ℕ → Result TransactionInstruction
  build_counter_instruction counter_pda chain_id = do
    discriminator ← get_instruction_discriminator this.idl (codes "initialize_counter")
    solana ← cluster.to_array_like 8 1
    gateway_pda ← cluster.find_program_address (codes "gateway" ∷ solana ∷ []) this.program_id
    chain ← cluster.to_array_like 8 chain_id
    ok (record {
      keys =
          record { pubkey = counter_pda; is_signer = false; is_writable = true }
          ∷ signing_authority
          ∷ record { pubkey = gateway_pda; is_signer = false; is_writable = false }
          ∷ system_account
          ∷ [];
      program_id = this.program_id;
      data_bytes = concat (discriminator ∷ chain ∷ []);
    })

  -- One signature of 64 zero bytes, by the authority, as a Borsh vector.
  unfoldable pub create_dummy_signatures : Bytes
  create_dummy_signatures =
      concat (le_bytes 4 1 ∷ concat (replicate 64 0 ∷ this.authority ∷ []) ∷ [])

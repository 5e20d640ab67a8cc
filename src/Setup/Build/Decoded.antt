-- ===== src/Setup/Build/Decoded.antt =====
-- The instructions that scripts/deployment/setup.ts builds, as decoders/instructions.ts reads them.
use via_solana_gateway_v.Prelude.{
  ℕ, ◌%◌, ◌^◌, ◌≤◌, ◌<◌, ◌≡◌, refl, sym, ap, true, false, List, [], ◌∷◌, ◌++◌, map, length, some,
  All, append_assoc, arith, Text, codes, text_eq, ok,
}
use via_solana_gateway_v.Prelude.Digits.{to_string}
use via_solana_gateway_v.Buffer.{Bytes, concat, le_bytes}
use via_solana_gateway_v.Decoders.Utils.{decode_signer_registry_type, get_chain_name}
use via_solana_gateway_v.Decoders.Utils.Base58.{base58_text}
use via_solana_gateway_v.Decoders.Utils.Reads.{IsKey, vec_pubkey}
use via_solana_gateway_v.Decoders.Instructions.{
  decode_initialize_gateway, decode_initialize_signer_registry,
}
use via_solana_gateway_v.Decoders.Instructions.RoundTrip.Signers.{
  decode_initialize_gateway-wire, decode_initialize_signer_registry-wire,
}
use via_solana_gateway_v.Setup.Types.{TransactionInstruction, PostDeploymentSetup}
use via_solana_gateway_v.Setup.Cluster.{Cluster}
use via_solana_gateway_v.Setup.Build.{
  signing_authority, system_account, get_instruction_discriminator, get_registry_type_discriminant,
  build_gateway_instruction, build_registry_instruction,
}

-- The three types of registry, with the byte that stands for each.
pub data IsRegistryType : Text → ℕ → Type 0 where
  via : IsRegistryType (codes "VIA") 0
  chain : IsRegistryType (codes "Chain") 1
  project : IsRegistryType (codes "Project") 2

get_registry_type_discriminant-eq :
    (registry_type : Text) (d : ℕ)
    → IsRegistryType registry_type d
    → get_registry_type_discriminant registry_type ≡ ok d
unfolding get_registry_type_discriminant text_eq
get_registry_type_discriminant-eq _ _ via = refl
get_registry_type_discriminant-eq _ _ chain = refl
get_registry_type_discriminant-eq _ _ project = refl

decode_signer_registry_type-eq :
    (registry_type : Text) (d : ℕ)
    → IsRegistryType registry_type d
    → decode_signer_registry_type (some d) ≡ registry_type
unfolding decode_signer_registry_type
decode_signer_registry_type-eq _ _ via = refl
decode_signer_registry_type-eq _ _ chain = refl
decode_signer_registry_type-eq _ _ project = refl

type_is_byte : (registry_type : Text) (d : ℕ) → IsRegistryType registry_type d → d < 3
type_is_byte _ _ via = omega arith
type_is_byte _ _ chain = omega arith
type_is_byte _ _ project = omega arith

le_bytes_one : (d : ℕ) → d < 256 → le_bytes 1 d ≡ d ∷ []
unfolding le_bytes
le_bytes_one d h = let e : d % 256 ≡ d = omega arith in ap (λ n. n ∷ []) e

-- What `Buffer.concat` makes of the pieces of a registry instruction.
registry_data-eq :
    (disc : Bytes) (d chain_id : ℕ) (keys : List Bytes) (threshold : ℕ)
    → d < 256
    → threshold < 256
    → concat (
        disc
        ∷ le_bytes 1 d
        ∷ le_bytes 8 chain_id
        ∷ le_bytes 4 (length keys)
        ∷ concat keys
        ∷ ((threshold % 256) ∷ [])
        ∷ [])
      ≡ disc ++ (d ∷ (le_bytes 8 chain_id ++ (vec_pubkey keys ++ (threshold ∷ []))))
unfolding concat vec_pubkey
registry_data-eq disc d chain_id keys threshold small low =
    let e : threshold % 256 ≡ threshold = omega arith in
    rw (le_bytes_one d small) (
      rw e (
        ap (λ fields. disc ++ (d ∷ (le_bytes 8 chain_id ++ fields)))
          (sym (append_assoc (le_bytes 4 (length keys)) (concat keys) (threshold ∷ [])))))

module _ {World : Type 0} (cluster : Cluster World) (this : PostDeploymentSetup) (disc : Bytes)
    (eight : length disc ≡ 8) (chain_id : ℕ) (safe : chain_id < 2 ^ 53) where
  -- The instructions that come of the pieces.
  abbrev gateway_built : Bytes → TransactionInstruction
  gateway_built pda = record {
    keys =
        record { pubkey = pda; is_signer = false; is_writable = true }
        ∷ signing_authority cluster this
        ∷ system_account cluster this
        ∷ [];
    program_id = this.program_id;
    data_bytes = concat (disc ∷ le_bytes 8 chain_id ∷ []);
  }

  abbrev registry_built : ℕ → Bytes → Bytes → List Bytes → ℕ → TransactionInstruction
  registry_built d pda gateway_pda keys threshold = record {
    keys =
        record { pubkey = pda; is_signer = false; is_writable = true }
        ∷ record { pubkey = gateway_pda; is_signer = false; is_writable = false }
        ∷ signing_authority cluster this
        ∷ system_account cluster this
        ∷ [];
    program_id = this.program_id;
    data_bytes = concat (
        disc
        ∷ le_bytes 1 d
        ∷ le_bytes 8 chain_id
        ∷ le_bytes 4 (length keys)
        ∷ concat keys
        ∷ ((threshold % 256) ∷ [])
        ∷ []);
  }

  -- The instruction that is built for a gateway has data that decodes to the gateway's chain, if
  -- the IDL gives the instruction 8 bytes of discriminator and the chain id is a safe integer.
  pub build_gateway_instruction-decoded :
      (pda : Bytes)
      → get_instruction_discriminator this.idl (codes "initialize_gateway") ≡ ok disc
      → (ix : TransactionInstruction) × (build_gateway_instruction cluster this pda chain_id
          ≡ ok ix)
        × (decode_initialize_gateway ix.data_bytes
            ≡ ok (record { chain_id = to_string chain_id; chain_name = get_chain_name chain_id }))
  unfolding build_gateway_instruction concat
  build_gateway_instruction-decoded pda found = (
    gateway_built pda,
    rw found (rw (cluster.to_array_like-le_bytes 8 chain_id safe (omega arith))),
    decode_initialize_gateway-wire disc [] eight chain_id (omega arith),
  )

  -- The instruction that is built for a signer registry has data that decodes to the registry's
  -- type and chain, its signers' keys in base58 and its threshold, if the IDL gives the instruction
  -- 8 bytes of discriminator, the type is one of the three, the chain id is a safe integer, and the
  -- threshold is at most the number of signers, of which there are fewer than 256.
  pub build_registry_instruction-decoded :
      (registry_type : Text) (d : ℕ) (pda gateway_pda : Bytes) (keys : List Bytes) (threshold : ℕ)
      → get_instruction_discriminator this.idl (codes "initialize_signer_registry") ≡ ok disc
      → IsRegistryType registry_type d
      → All IsKey keys
      → threshold ≤ length keys
      → length keys < 256
      → (ix : TransactionInstruction) × (build_registry_instruction cluster this pda gateway_pda
            registry_type chain_id keys threshold
          ≡ ok ix)
        × (decode_initialize_signer_registry ix.data_bytes
            ≡ ok (record {
              registry_type = registry_type;
              registry_type_value = some d;
              chain_id = to_string chain_id;
              chain_name = get_chain_name chain_id;
              signers = map base58_text keys;
              signer_count = length keys;
              required_signatures = some threshold;
            }))
  unfolding build_registry_instruction
  build_registry_instruction-decoded registry_type d pda gateway_pda keys threshold found is_type
        are_keys low few =
      let small = type_is_byte registry_type d is_type in
      (
        registry_built d pda gateway_pda keys threshold,
        rw found (
            rw (get_registry_type_discriminant-eq registry_type d is_type) (
              rw (cluster.to_array_like-le_bytes 1 d (omega arith) (omega arith)) (
                rw (cluster.to_array_like-le_bytes 8 chain_id safe (omega arith)) (
                  rw (
                    cluster.to_array_like-le_bytes 4 (length keys) (omega arith) (omega arith)))))),
        decodes small,
      )
    where
      decodes :
          d < 3
          → decode_initialize_signer_registry (
              concat (
                disc
                ∷ le_bytes 1 d
                ∷ le_bytes 8 chain_id
                ∷ le_bytes 4 (length keys)
                ∷ concat keys
                ∷ ((threshold % 256) ∷ [])
                ∷ []))
            ≡ ok (record {
              registry_type = registry_type;
              registry_type_value = some d;
              chain_id = to_string chain_id;
              chain_name = get_chain_name chain_id;
              signers = map base58_text keys;
              signer_count = length keys;
              required_signatures = some threshold;
            })
      decodes small =
          rw (registry_data-eq disc d chain_id keys threshold (omega arith) (omega arith)) (
            rw
              (decode_initialize_signer_registry-wire disc [] eight d chain_id (omega arith) keys
                threshold are_keys (omega arith))
              (rw (decode_signer_registry_type-eq registry_type d is_type)))

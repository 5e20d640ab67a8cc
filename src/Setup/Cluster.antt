-- ===== src/Setup/Cluster.antt =====
-- What the setup takes from @solana/web3.js, Anchor and bn.js. A call over the network may find the
-- cluster in any state, and may leave it in another.
use via_solana_gateway_v.Prelude.{ℕ, ◌^◌, ◌<◌, ◌≡◌, List, Option, Text, Error, Result, ok}
use via_solana_gateway_v.Buffer.{Bytes, le_bytes}
use via_solana_gateway_v.Decoders.Utils.Reads.{IsKey}
use via_solana_gateway_v.Setup.Types.{TransactionInstruction}

pub record Cluster (World : Type 0) : Type 0 where
  -- `SystemProgram.programId`
  pub system_program : Bytes
  -- `PublicKey.findProgramAddress(seeds, programId)`, and its Sync form
  pub find_program_address : List Bytes → Bytes → Result Bytes
  -- `new PublicKey(text)`, which throws unless the text is 32 bytes in base58
  pub public_key : Text → Result Bytes
  pub public_key-IsKey : (text : Text) (key : Bytes) → public_key text ≡ ok key → IsKey key
  -- `new BN(n).toArrayLike(Buffer, "le", width)`, which throws if `n` is no safe integer or does
  -- not fit
  pub to_array_like : ℕ → ℕ → Result Bytes
  pub to_array_like-le_bytes :
      (width n : ℕ) → n < 2 ^ 53 → n < 256 ^ width → to_array_like width n ≡ ok (le_bytes width n)
  -- `${error}`
  pub show_error : Error → Text
  -- `(lamports / LAMPORTS_PER_SOL).toFixed(4)`
  pub sol_to_fixed : ℕ → Text
  pub get_account_info : Bytes → World → Result (Option Bytes) × World
  pub get_balance : Bytes → World → Result ℕ × World
  -- `sendAndConfirm(new Transaction().add(instruction), [authority])`
  pub send_and_confirm : TransactionInstruction → World → Result Text × World

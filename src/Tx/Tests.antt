-- ===== src/Tx/Tests.antt =====
-- Sample scripts, and the theorems on the script builders at them.
use zalkanes.Base.{refl, ok, ◌≡◌, ◌≤◌, [], ◌∷◌, length, some, arith}
use zalkanes.Base.Bytes.{Bytes}
use zalkanes.Carrier.Script.{chunk_from_script_sig}
use zalkanes.Core.{CodeHash}
use zalkanes.Carrier.{reconstruct, pieces}
use zalkanes.Indexer.Transaction.{collect_chunks}
use zalkanes.Tx.{split_chunks, carrier_input_count, div_ceil, carrier_script_sig}
use zalkanes.Tx.ScriptRoundTrip.{chunk-carrier_script_sig}
use zalkanes.Tx.Carried.{carried, reconstruct-carried}
use zalkanes.Tx.Plan.{carrier_script_sig_len}
use zalkanes.Tx.Plan.Covered.{carrier_script_sig-covered}
use zalkanes.Tx.Sizes.{carrier_script_sig-standard}

abbrev three_bytes : Bytes
three_bytes = 1 ∷ 2 ∷ 3 ∷ []

chunk-carrier_script_sig_example :
    chunk_from_script_sig (carrier_script_sig 4 three_bytes (9 ∷ 9 ∷ []) (8 ∷ []))
    ≡ some (4, three_bytes)
chunk-carrier_script_sig_example =
    chunk-carrier_script_sig 4 three_bytes (9 ∷ 9 ∷ []) (8 ∷ []) (omega arith) (omega arith)
      (omega arith)

carrier_script_sig-covered_example :
    length (carrier_script_sig 4 three_bytes (9 ∷ 9 ∷ []) (8 ∷ []))
    ≤ carrier_script_sig_len (length three_bytes)
carrier_script_sig-covered_example =
    carrier_script_sig-covered 4 three_bytes (9 ∷ 9 ∷ []) (8 ∷ []) (omega arith) (omega arith)

carrier_script_sig-standard_example :
    length (carrier_script_sig 4 three_bytes (9 ∷ 9 ∷ []) (8 ∷ [])) ≤ 1650
carrier_script_sig-standard_example =
    carrier_script_sig-standard 4 three_bytes (9 ∷ 9 ∷ []) (8 ∷ []) (omega arith) (omega arith)
      (omega arith)

abbrev toy_sha256 : Bytes → CodeHash
toy_sha256 bytes = length bytes ∷ []

splits : split_chunks three_bytes ≡ some (three_bytes ∷ [])
unfolding split_chunks carrier_input_count div_ceil pieces
splits = refl

reconstruct-carried_example :
    reconstruct toy_sha256
      (collect_chunks (carried (λ i. i ∷ 9 ∷ []) (8 ∷ []) 0 (three_bytes ∷ [])))
      1
      3
      (3 ∷ [])
    ≡ ok three_bytes
reconstruct-carried_example =
    reconstruct-carried toy_sha256 three_bytes (8 ∷ []) (λ i. i ∷ 9 ∷ []) (three_bytes ∷ [])
      (λ _. omega arith) (omega arith) splits

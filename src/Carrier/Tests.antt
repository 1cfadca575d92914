-- ===== src/Carrier/Tests.antt =====
-- A small module in two chunks, and the theorems on the carrier at it.
use zalkanes.Base.{◌≡◌, ◌<◌, ◌≤◌, refl, List, [], ◌∷◌, length, some, ok, arith, All, map}
use zalkanes.Base.Bytes.{Bytes}
use zalkanes.Base.Order.{cmp_bytes}
use zalkanes.Core.{CodeHash, max_code_bytes}
use zalkanes.Carrier.{
  Chunk, slot, split, pieces, number_from, reconstruct, place, place_all, gather, verify,
}
use zalkanes.Carrier.Reconstruct.{reconstruct-split}
use zalkanes.Carrier.Script.{concat}
use zalkanes.Carrier.Accepted.{Distinct, indices, reconstruct-Accepted}
use zalkanes.Carrier.Reorder.{reconstruct-Reordered, exchange}

abbrev toy_sha256 : Bytes → CodeHash
toy_sha256 bytes = length bytes ∷ []

abbrev module_bytes : Bytes
module_bytes = 1 ∷ 2 ∷ 3 ∷ []

abbrev first : Chunk
first = record { index = 0; payload = 1 ∷ 2 ∷ [] }

abbrev second : Chunk
second = record { index = 1; payload = 3 ∷ [] }

abbrev two_chunks : List Chunk
two_chunks = first ∷ second ∷ []

splits : split module_bytes 2 ≡ some two_chunks
unfolding split pieces number_from
splits = refl

reconstructs : reconstruct toy_sha256 two_chunks 2 3 (3 ∷ []) ≡ ok module_bytes
unfolding reconstruct place place_all gather verify cmp_bytes
reconstructs = refl

reconstruct-split_example : reconstruct toy_sha256 two_chunks 2 3 (3 ∷ []) ≡ ok module_bytes
reconstruct-split_example =
    reconstruct-split toy_sha256 module_bytes 2 two_chunks splits (omega arith) (omega arith)
      (omega arith)

reconstruct-Accepted_example :
    (length two_chunks ≡ 2)
    × Distinct (indices two_chunks)
    × All (λ c. c.index < 2) two_chunks
    × ((payloads : List Bytes) × (length payloads ≡ 2)
        × (module_bytes ≡ concat payloads)
        × All (λ c. slot (map some payloads) c.index ≡ some c.payload) two_chunks)
    × (length module_bytes ≡ 3)
    × (toy_sha256 module_bytes ≡ 3 ∷ [])
    × (0 < 3)
    × (3 ≤ max_code_bytes)
reconstruct-Accepted_example =
    reconstruct-Accepted toy_sha256 two_chunks 2 3 (3 ∷ []) module_bytes reconstructs

reconstruct-Reordered_example :
    reconstruct toy_sha256 (second ∷ first ∷ []) 2 3 (3 ∷ []) ≡ ok module_bytes
reconstruct-Reordered_example =
    reconstruct-Reordered toy_sha256 2 3 (3 ∷ []) module_bytes exchange reconstructs

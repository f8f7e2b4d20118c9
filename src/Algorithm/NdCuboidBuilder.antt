-- ===== src/Algorithm/NdCuboidBuilder.antt =====
-- src/algorithm/nd_cuboid_builder: the key of a cuboid from the split key of its parent.
pub mod Picked
use husky_kylin.Prelude.{
  ℕ, zero, suc, ◌+◌, ◌-◌, ◌/◌, bit_and, ltb, leb, Bool, true, false, Option, none, some, List, [],
  ◌∷◌, ◌>>=◌, ◌>>◌, check, length, get_elem?, replicate,
}
use husky_kylin.Utils.Bits.{highest_one_bit, number_of_leading_zeros}
use husky_kylin.Cube.RowKey.{RowKeyDesc}
use husky_kylin.Cube.Cuboid.{Cuboid}
use husky_kylin.Cube.Kv.{
  Formats, RowKeyEncoder, new_row_key_encoder, cuboidid_length, copy_to, create_buf, fill_header,
}

-- `(mask & id) > 0`.
unfoldable pub is_set : ℕ → ℕ → Bool
is_set mask id = ltb 0 (bit_and mask id)

-- The loop, with the rounds that are left. Whether the buffer fits is CHECKed.
unfoldable pub build_loop : ℕ → ℕ → ℕ → List (List ℕ) → ℕ → ℕ → ℕ → List ℕ → Option (List ℕ)
build_loop parent_id child_id zero split_buffers mask index offset buf = some buf
build_loop parent_id child_id (suc left) split_buffers mask index offset buf =
    elim (is_set mask parent_id) [
      | false ↦ build_loop parent_id child_id left split_buffers (mask / 2) index offset buf
      | true ↦ elim (is_set mask child_id) [
        | false ↦ build_loop parent_id child_id left split_buffers (mask / 2) (index + 1) offset buf
        | true ↦ do
          buffer ← get_elem? split_buffers index
          check (leb (offset + length buffer) (length buf))
          build_loop parent_id child_id left split_buffers (mask / 2) (index + 1)
              (offset + length buffer) (copy_to buf offset buffer)
      ]
    ]

-- `get_body_split_offset` is 1, since keys are not sharded.
unfoldable pub build_key_internal : RowKeyEncoder → ℕ → ℕ → List (List ℕ) → List ℕ → Option (List ℕ)
build_key_internal encoder parent_id child_id split_buffers new_key_body_buf = do
  bytes ←
      build_loop parent_id child_id (64 - number_of_leading_zeros parent_id) split_buffers
        (highest_one_bit parent_id) 1 cuboidid_length new_key_body_buf
  some (fill_header encoder bytes)

unfoldable pub build_key : Formats → RowKeyDesc → Cuboid → Cuboid → List (List ℕ) → Option (List ℕ)
build_key formats row_key parent child split_buffers = do
  encoder ← new_row_key_encoder formats row_key child
  build_key_internal encoder parent.id child.id split_buffers (create_buf encoder)

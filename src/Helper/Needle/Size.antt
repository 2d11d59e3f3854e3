-- ===== src/Helper/Needle/Size.antt =====
-- The padded size of a needle.
use s3_storage_node.Common.{ℕ, ◌+◌, ◌%◌, ◌≤◌, ◌<◌, ◌≡◌, arith}
use s3_storage_node.Common.Int.{ℤ}
use s3_storage_node.Helper.Needle.{payload_size, unpadded_size, needle_actual_size}

-- A needle takes whole units of 8 bytes, with between 1 and 8 bytes of padding after its content,
-- so that it is longer than its payload.
pub needle_actual_size_bounds :
    (size : ℤ) (version : ℕ)
    → (needle_actual_size size version % 8 ≡ 0)
      × (unpadded_size size version < needle_actual_size size version)
      × (needle_actual_size size version ≤ unpadded_size size version + 8)
      × (payload_size size + 20 < needle_actual_size size version)
unfolding needle_actual_size
needle_actual_size_bounds size version = ground arith

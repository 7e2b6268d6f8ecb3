-- ===== src/Engine/Adjacency/Storage.antt =====
-- `tensor_storage_bytes` of engine/tensor/sparse.py.
use ai_quantum.Common.{ℕ, ◌+◌, ◌*◌, ◌≡◌, refl, Outcome, ok, err}
use ai_quantum.Common.Text.{Text, codes}

-- A tensor of numbers side by side, as torch describes it.
pub record Strided : Type 0 where
  pub element_size : ℕ
  pub nelement : ℕ

-- A tensor by its layout, with the parts that the layout has; a COO tensor is coalesced.
pub data Tensor : Type 0 where
  strided : Strided → Tensor
  sparse_coo : (indices : Strided) (values : Strided) → Tensor
  sparse_csr : (crow_indices : Strided) (col_indices : Strided) (values : Strided) → Tensor
  other_layout : Text → Tensor

-- `ValueError`, with the layout.
pub data StorageError : Type 0 where
  unsupported_layout : Text → StorageError

abbrev pub bytes : Strided → ℕ
bytes t = t.element_size * t.nelement

unfoldable pub tensor_storage_bytes : Tensor → Outcome StorageError ℕ
tensor_storage_bytes (strided t) = ok (bytes t)
tensor_storage_bytes (sparse_coo indices values) = ok (bytes indices + bytes values)
tensor_storage_bytes (sparse_csr crow_indices col_indices values) =
    ok (bytes crow_indices + bytes col_indices + bytes values)
tensor_storage_bytes (other_layout layout) = err (unsupported_layout layout)

abbrev int64 : ℕ → Strided
int64 n = record { element_size = 8; nelement = n }

abbrev float32 : ℕ → Strided
float32 n = record { element_size = 4; nelement = n }

-- A hundred nodes, and 500 cells that are not zero.
dense_hundred : tensor_storage_bytes (strided (float32 (100 * 100))) ≡ ok 40000
unfolding tensor_storage_bytes
dense_hundred = refl

coo_hundred : tensor_storage_bytes (sparse_coo (int64 (2 * 500)) (float32 500)) ≡ ok 10000
unfolding tensor_storage_bytes
coo_hundred = refl

csr_hundred : tensor_storage_bytes (sparse_csr (int64 101) (int64 500) (float32 500)) ≡ ok 6808
unfolding tensor_storage_bytes
csr_hundred = refl

no_layout :
    tensor_storage_bytes (other_layout (codes "jagged")) ≡ err (unsupported_layout (codes "jagged"))
unfolding tensor_storage_bytes
no_layout = refl

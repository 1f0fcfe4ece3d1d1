-- ===== src/Inference.antt =====
-- src/inference: the files of the model, their header and their loading.
pub mod Tokenizer
pub mod Files
pub mod Tensors
pub mod Header
pub mod RoundTrip
pub mod Loading
pub mod Directory
pub mod Sample
mod Tests

-- ===== src/Inference/Tokenizer.antt =====
-- src/inference/tokenizer.h and tokenizer.cc: the tokenizer, which finds no tokens yet.
use gabby.Base.{ℕ, List, [], Bytes}
use gabby.Json.Value.{Value}

-- `class Tokenizer`, which keeps nothing of what it is constructed from
pub record Tokenizer : Type 0 where

-- `Tokenizer::Tokenizer`
unfoldable pub tokenizer : (special_tokens_map tokenizer_config tokens : Value) → Tokenizer
tokenizer special_tokens_map tokenizer_config tokens = record {}

-- `Tokenizer::Tokenize`
unfoldable pub tokenize : Tokenizer → Bytes → List ℕ
tokenize t input = []

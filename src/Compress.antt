-- ===== src/Compress.antt =====
-- src/compress.c. The libraries snappy and zstd are a parameter: `Codecs`.
use sparkey.Base.{ℕ, List, Bool, Option, none, some, u32, ◌==◌, ◌||◌, if◌then◌else◌}
use sparkey.ReturnCode.{internal_error}
use sparkey.Exec.{Outcome, done, thrown, fault, null_call}
use sparkey.LogHeader.{compression_snappy, compression_zstd}

-- A compressor takes its input and the size of its output buffer, and gives the output, or `none`
-- where its status is not OK. A decompressor is alike.
pub record Codecs : Type 0 where
  pub snappy_max_compressed_length : ℕ → ℕ
  pub snappy_compress : List ℕ → ℕ → Option (List ℕ)
  pub snappy_uncompress : List ℕ → ℕ → Option (List ℕ)
  pub zstd_compress_bound : ℕ → ℕ
  pub zstd_compress : List ℕ → ℕ → ℕ → Option (List ℕ)
  pub zstd_decompress : List ℕ → ℕ → Option (List ℕ)

or_internal_error : Option (List ℕ) → Outcome (List ℕ)
or_internal_error none = thrown internal_error
or_internal_error (some output) = done output

module _ (codecs : Codecs) where
  open codecs use {
    snappy_max_compressed_length, snappy_compress, snappy_uncompress, zstd_compress_bound,
    zstd_compress, zstd_decompress,
  }

  pub sparkey_snappy_max_compressed_size : ℕ → ℕ
  sparkey_snappy_max_compressed_size block_size = u32 (snappy_max_compressed_length block_size)

  pub sparkey_snappy_decompress : List ℕ → ℕ → Outcome (List ℕ)
  sparkey_snappy_decompress input size = or_internal_error (snappy_uncompress input size)

  pub sparkey_snappy_compress : List ℕ → ℕ → Outcome (List ℕ)
  sparkey_snappy_compress input size = or_internal_error (snappy_compress input size)

  pub sparkey_zstd_max_compressed_size : ℕ → ℕ
  sparkey_zstd_max_compressed_size block_size = u32 (zstd_compress_bound block_size)

  pub sparkey_zstd_decompress : List ℕ → ℕ → Outcome (List ℕ)
  sparkey_zstd_decompress input size = or_internal_error (zstd_decompress input size)

  pub sparkey_zstd_compress : List ℕ → ℕ → Outcome (List ℕ)
  sparkey_zstd_compress input size = or_internal_error (zstd_compress input size 3)

  -- `sparkey_compressors[type]`: its first entry has NULL for functions, and it has three.
  pub max_compressed_size : ℕ → ℕ → Outcome ℕ
  max_compressed_size type block_size =
      if type == compression_snappy
      then done (sparkey_snappy_max_compressed_size block_size)
      else if type == compression_zstd
      then done (sparkey_zstd_max_compressed_size block_size)
      else fault null_call

  pub decompress : ℕ → List ℕ → ℕ → Outcome (List ℕ)
  decompress type input size =
      if type == compression_snappy
      then sparkey_snappy_decompress input size
      else if type == compression_zstd
      then sparkey_zstd_decompress input size
      else fault null_call

  pub compress : ℕ → List ℕ → ℕ → Outcome (List ℕ)
  compress type input size =
      if type == compression_snappy
      then sparkey_snappy_compress input size
      else if type == compression_zstd
      then sparkey_zstd_compress input size
      else fault null_call

-- `sparkey_uses_compressor`
unfoldable pub uses_compressor : ℕ → Bool
uses_compressor type = type == compression_snappy || type == compression_zstd

-- ===== src/Util/Stream.antt =====
-- src/util/stream.c: what a writer and a reader of a file make of the counts of `fwrite` and `fread`; and
-- src/util/block_release_pool.c: blocks that are released together.
use fluffy_vm.Prelude.{ℕ, List, [], ◌∷◌, ◌++◌, Option, none, some, ◌==◌, ltb, if◌then◌else◌}

-- `stream_status_t`
pub data StreamStatus : Type 0 where
  stream_ok stream_eof stream_failed : StreamStatus

-- `fwrite` reports how many of the `size` bytes it has written.
unfoldable pub file_writer : ℕ → ℕ → StreamStatus
file_writer size written = if written == size then stream_ok else stream_failed

-- `fread` reports how many of at most `size` bytes it has read.
unfoldable pub file_reader : ℕ → ℕ → StreamStatus
file_reader size loaded =
    if ltb 0 loaded then stream_ok else if ltb loaded size then stream_eof else stream_failed

-- `block_release_pool_t`: the list, when there is one.
abbrev pub Pool : Type 0
Pool = Option (List ℕ)

unfoldable pub block_pool_add : Pool → ℕ → Pool × ℕ
block_pool_add none block = (some (block ∷ []), block)
block_pool_add (some blocks) block = (some (blocks ++ block ∷ []), block)

-- The blocks in the order in which they are released.
unfoldable pub block_pool_release : Pool → Pool × List ℕ
block_pool_release none = (none, [])
block_pool_release (some blocks) = (none, blocks)

-- ===== src/Bridge/Memory.antt =====
-- class MemoryChunk and MemoryChunkOutputStream of
-- runtime_bridge/c-modules/pxprpc_rtbridge_base/init.hpp, and the calls that read and write a chunk.
-- `none` is undefined behaviour: an access outside the block.
pub mod Laws
use pxp_rpc.Base.{
  ℕ, ◌+◌, ◌-◌, ◌^◌, ◌≡◌, Bool, true, false, List, [], ◌∷◌, ◌++◌, Option, none, some, ◌>>=◌, ltb,
  leb, ◌==◌, ◌||◌, ◌&&◌, if◌then◌else◌, length, take, replicate,
}
use pxp_rpc.Base.Bytes.{read, write}
use pxp_rpc.Serializer.{Ser, fresh}
use pxp_rpc.CppSerializer.{prepare_serializing, put_long, put_int, build}

-- How the block was got; the values of `createBy`.
pub data CreateBy : Type 0 where
  nothing malloc access file_mapping : CreateBy

-- `base` is the address, `block` the bytes that lie there.
pub record Chunk : Type 0 where
  pub create_by : CreateBy
  pub size : ℕ
  pub base : ℕ
  pub block : List ℕ

-- `alloc`: malloc returns `base`, with bytes `junk`.
unfoldable pub alloc : (junk : ℕ → ℕ) → (base sizein : ℕ) → Option Chunk
alloc junk base sizein =
    if ltb sizein (2 ^ 31)
    then some (record {
      create_by = CreateBy.malloc;
      size = sizein;
      base = base;
      block = fresh junk 0 sizein;
    })
    else none

-- `access`, to the bytes that the caller says are there.
unfoldable pub access_memory : (base sizein : ℕ) → List ℕ → Chunk
access_memory basein sizein block = record {
  create_by = CreateBy.access;
  size = sizein;
  base = basein;
  block = block;
}

-- `mode.find(c)!=npos`
unfoldable pub has_char : List ℕ → ℕ → Bool
has_char [] c = false
has_char (d ∷ ds) c = (d == c) || has_char ds c

-- `filemap`: memfile_create is outside; it gets the path, whether the mode reads and writes, and the
-- size, and returns the address and the bytes of the mapping, or none for an error.
unfoldable pub filemap :
    (List ℕ → Bool → Bool → ℕ → Option (ℕ × List ℕ)) → (path mode : List ℕ) → ℕ → Option Chunk
filemap memfile_create path mode sizein =
    memfile_create path (has_char mode 114) (has_char mode 119) sizein >>= λ m.
    some (record { create_by = CreateBy.file_mapping; size = sizein; base = m.0; block = m.1 })

-- What the destructor frees.
pub data Release : Type 0 where
  nothing free_base close_file : Release

unfoldable pub destroy_chunk : Chunk → Release
destroy_chunk c = elim c.create_by [
  | CreateBy.nothing ↦ Release.nothing
  | CreateBy.malloc ↦ Release.free_base
  | CreateBy.access ↦ Release.nothing
  | CreateBy.file_mapping ↦ Release.close_file
]

-- `pxprpc_rtbridge.memory_read`, of offset and size that are not negative, or of size -1.
unfoldable pub memory_read : Chunk → (offset size : ℕ) → Option (List ℕ)
memory_read c offset size =
    let n = if size == 0xffffffff then c.size else size in
    if ltb offset (2 ^ 31) then read c.block offset n else none

-- `pxprpc_rtbridge.memory_write`
unfoldable pub memory_write : Chunk → ℕ → List ℕ → Option Chunk
memory_write c offset bs =
    if ltb offset (2 ^ 31)
    then (write c.block offset bs >>= λ block. some (record c { block = block }))
    else none

-- `pxprpc_rtbridge.memory_info`
unfoldable pub memory_info : (ℕ → ℕ) → Chunk → Option (List ℕ)
memory_info junk c = put_long junk (prepare_serializing junk 16) c.base >>= λ s.
    put_int junk s c.size >>= λ t. some (build t)

-- `MemoryChunkOutputStream`
pub record OutputStream : Type 0 where
  pub chunk : Chunk
  pub pos : ℕ

unfoldable pub target : Chunk → OutputStream
target c = record { chunk = c; pos = 0 }

-- `write`: the position goes on when the chunk is full; it is an `int`, whose overflow is undefined.
unfoldable pub stream_write : OutputStream → List ℕ → Option OutputStream
stream_write o bs =
    let next = o.pos + length bs in
    (if ltb o.pos o.chunk.size && ltb o.chunk.size (2 ^ 31)
      then (write o.chunk.block o.pos (take (o.chunk.size - o.pos) bs) >>= λ block.
          some (record o.chunk { block = block }))
      else some o.chunk)
    >>= λ c. if ltb next (2 ^ 31) then some (record { chunk = c; pos = next }) else none

unfoldable pub stream_writes : OutputStream → List (List ℕ) → Option OutputStream
stream_writes o [] = some o
stream_writes o (bs ∷ more) = stream_write o bs >>= λ p. stream_writes p more

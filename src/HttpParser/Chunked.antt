-- ===== src/HttpParser/Chunked.antt =====
-- The chunked transfer coding of src/HttpParser.cpp. A std::string that would grow past its
-- `max_size()` throws; the limit is that of libstdc++.
pub mod RoundTrip
pub mod Errors
use fast_net.Prelude.{ℕ, zero, suc, ◌+◌, ◌-◌, ◌%◌, ◌^◌, Bool, true, false, not, ◌&&◌, ◌||◌, min}
use fast_net.Prelude.{Option, none, some, List, [], ◌∷◌, ◌++◌, codes, is_empty}
use fast_net.Prelude.{ltb, ◌==◌, if◌then◌else◌, length, take, drop}
use fast_net.HttpParser.Text.{find, find_byte, starts_with, trim, is_valid_header_name}
use fast_net.HttpParser.Numbers.{parse_hex_size, append_unsigned_hex}
use fast_net.HttpParser.Headers.{crlf, lines}

abbrev pub string_max_size : ℕ
string_max_size = 2 ^ 63 - 1

-- What `parseChunked` does: it returns its flag and leaves a body, or the body's growth throws.
pub data ChunkOutcome : Type 0 where
  returned : Bool → (body : List ℕ) → ChunkOutcome
  length_error : ChunkOutcome

-- The loop over the trailer: a line with no end is refused, and an empty one has to be the last.
unfoldable pub parse_trailers : List (List ℕ) → Bool
parse_trailers [] = false
parse_trailers (line ∷ []) = false
parse_trailers ([] ∷ more ∷ rest) = is_empty more && is_empty rest
parse_trailers ((c ∷ line) ∷ more ∷ rest) = elim (find_byte b':' (c ∷ line)) [
  | none ↦ false
  | some colon ↦ is_valid_header_name (trim (take colon (c ∷ line))) && parse_trailers (more ∷ rest)
]

-- The size line without an extension.
unfoldable pub chunk_size_line : List ℕ → List ℕ
chunk_size_line line = elim (find_byte b';' (trim line)) [
  | none ↦ trim line
  | some extension_pos ↦ trim (take extension_pos (trim line))
]

-- The loop of `parseChunked`: `rest` is what stands from `offset` on, of `total` bytes in all. Each
-- round takes a line end at least; `none` means that the fuel ran out.
unfoldable pub parse_chunks : ℕ → (total offset : ℕ) → (rest body : List ℕ) → Option ChunkOutcome
unfolding parse_trailers chunk_size_line
parse_chunks fuel total offset [] body = some (returned false body)
parse_chunks zero total offset (c ∷ rest) body = none
parse_chunks (suc fuel) total offset (c ∷ rest) body = elim (find crlf (c ∷ rest)) [
  | none ↦ some (returned false body)
  | some line_end ↦ elim (parse_hex_size (chunk_size_line (take line_end (c ∷ rest)))) [
    | none ↦ some (returned false body)
    | some chunk_size ↦
        let offset = offset + line_end + 2 in
        let rest = drop (line_end + 2) (c ∷ rest) in
        if chunk_size == 0
        then some (returned (parse_trailers (lines rest)) body)
        else if ltb total ((offset + chunk_size + 2) % 2 ^ 64)
        then some (returned false body)
        else if ltb string_max_size (length body + chunk_size)
        then some length_error
        else let body = body ++ take chunk_size rest in
          if not (starts_with crlf (drop chunk_size rest))
          then some (returned false body)
          else parse_chunks fuel total (offset + chunk_size + 2) (drop (chunk_size + 2) rest) body
  ]
]

unfoldable pub parse_chunked : List ℕ → Option ChunkOutcome
unfolding parse_chunks
parse_chunked text = parse_chunks (length text) (length text) 0 text []

abbrev pub chunked_encode_block_size : ℕ
chunked_encode_block_size = 8192

-- The loop of `buildChunked`, on fuel: a chunk takes a byte at least.
unfoldable pub build_chunks : ℕ → List ℕ → List ℕ
build_chunks zero text = []
build_chunks (suc fuel) [] = []
build_chunks (suc fuel) (c ∷ text) =
    let chunk_size = min chunked_encode_block_size (length (c ∷ text)) in
    let rest = build_chunks fuel (drop chunk_size (c ∷ text)) in
    append_unsigned_hex chunk_size ++ (crlf ++ (take chunk_size (c ∷ text) ++ (crlf ++ rest)))

unfoldable pub build_chunked : List ℕ → List ℕ
unfolding build_chunks
build_chunked text = build_chunks (length text) text ++ (b'0' ∷ 13 ∷ 10 ∷ 13 ∷ 10 ∷ [])

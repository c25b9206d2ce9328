-- ===== src/Rtsp/Parser.antt =====
-- The structures of src/common/rtsp-parser.c.
--
-- `raw` is the part of the buffer that has been written since it was allocated; what `realloc` adds
-- stays out of the list until it is written. A `size_t` has 32 bits, as on the boxes that the
-- Makefile builds for by default. `headers` holds the first `header_size` entries of the array. The
-- union `u` is two fields: a parser has one mode for life, and each mode uses one member only.
-- `stateM` runs through the numbers of three enumerations above one another; here it is a sum of
-- them. The two of the start line number the same nine places.
use box_rtsp.Prelude.{ℕ, ◌+◌, ◌-◌, ◌%◌, ◌^◌, Bool, List, ◌||◌, ltb, ◌==◌, if◌then◌else◌, ℤ, negsuc}

-- `enum RTSP_PARSER_MODE`
pub data Mode : Type 0 where
  client server : Mode

-- SM_REQUEST_START … SM_REQUEST_LF, SM_STATUS_START … SM_STATUS_LF
pub data Line : Type 0 where
  start first sp1 second sp2 third sp3 cr lf : Line

-- SM_HEADER_START … SM_HEADER_LF
pub data Field : Type 0 where
  start name sp1 separator sp2 value sp3 cr lf : Field

-- CHUNK_START … CHUNK_END_CR
pub data Body : Type 0 where
  start size extension extension_cr chunk_data trailer_start trailer trailer_cr end end_cr : Body

pub data StateM : Type 0 where
  start_line : Line → StateM
  header : Field → StateM
  body : Body → StateM
  done : StateM

-- `rtsp_string_t`
pub record Slice : Type 0 where
  pub pos : ℕ
  pub len : ℕ

-- `rtsp_request_line_t`
pub record Request : Type 0 where
  pub method : Slice
  pub uri : Slice

-- `rtsp_status_line_t`
pub record Status : Type 0 where
  pub code : ℤ
  pub reason : Slice

-- `rtsp_header_t`
pub record Header : Type 0 where
  pub name : Slice
  pub value : Slice

-- `rtsp_chunk_t`
pub record Chunk : Type 0 where
  pub offset : ℕ
  pub len : ℕ
  pub pos : ℕ

-- `rtsp_parser_t`
pub record Parser : Type 0 where
  pub raw : List ℕ
  pub raw_size : ℕ
  pub raw_capacity : ℕ
  pub server_mode : Mode
  pub state_m : StateM
  pub offset : ℕ
  pub header : Header
  pub chunk : Chunk
  pub vermajor : ℤ
  pub verminor : ℤ
  pub req : Request
  pub reply : Status
  pub headers : List Header
  pub header_capacity : ℕ
  pub content_length : ℤ
  pub connection_close : ℤ
  pub content_encoding : ℕ
  pub transfer_encoding : ℕ
  pub cookie : ℕ
  pub location : ℕ

-- What the code takes from outside a call: `s_body_max_size`, and whether `realloc` grants a size.
pub record Env : Type 0 where
  pub body_max_size : ℕ
  pub grants : ℕ → Bool

abbrev pub size_mod : ℕ
size_mod = 2 ^ 32

-- `a - b` and `a + b` of `size_t`
unfoldable pub sub_size : ℕ → ℕ → ℕ
sub_size a b = (a + size_mod - b) % size_mod

unfoldable pub add_size : ℕ → ℕ → ℕ
add_size a b = (a + b) % size_mod

-- The casts between `int` and `size_t`.
unfoldable pub to_size : ℤ → ℕ
to_size (ℤ.pos n) = n % size_mod
to_size (negsuc n) = size_mod - 1 - n

unfoldable pub to_int : ℕ → ℤ
to_int n = if ltb n (2 ^ 31) then ℤ.pos n else negsuc (size_mod - n - 1)

abbrev pub slice0 : Slice
slice0 = record { pos = 0; len = 0 }

abbrev pub header0 : Header
header0 = record { name = slice0; value = slice0 }

abbrev pub set_pos : Slice → ℕ → Slice
set_pos s i = record s { pos = i }

-- `*(v[k]) = rtsp->offset - *(v[k - 1])`
abbrev pub set_len : Slice → ℕ → Slice
set_len s i = record s { len = sub_size i s.pos }

-- The loop's `++rtsp->offset`. Where the code first takes 1 away ("go back") the offset stays.
abbrev pub advance : Parser → Parser
advance p = record p { offset = p.offset + 1 }

abbrev pub goto : StateM → Parser → Parser
goto s p = record p { state_m = s }

-- `' ' == c || '\t' == c`
abbrev pub is_blank : ℕ → Bool
is_blank c = c == b' ' || c == b'\t'

-- `' ' == c || '\t' == c || '\r' == c || '\n' == c`
abbrev pub ends_word : ℕ → Bool
ends_word c = c == b' ' || c == b'\t' || c == b'\r' || c == b'\n'
